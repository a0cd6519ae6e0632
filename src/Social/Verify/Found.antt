-- ===== src/Social/Verify/Found.antt =====
-- When a platform confirms a post.
use agent_operator.Prelude.{
  ℕ, String, str_eq, eq_iff, ◌==◌, ==_iff, ◌≡◌, ◌≢◌, refl, ◌∙◌, ap, ◌↔◌, inl, inr, arith, Bool,
  true, false, not, Option, none, some, Bool-cases, if◌then◌else◌, ok,
}
use agent_operator.Social.{Credentials, is_set, has_x_credentials}
use agent_operator.Social.Verify.{
  VerifyPlatform, x, linkedin, unsupported, Details, unreadable, texts, other, PostReply, response,
  raises, Checked, not_verified, reply_confirms, or_not_verified, verify_x, verify_linkedin,
  verify_on,
}

pub str_differs : (s t : String) → str_eq s t ≡ false → s ≢ t
str_differs s t h = λ e. absurd (ground (arith, h, (eq_iff s t).1 e))

module _ (fetch : String → PostReply) (creds : Credentials) where
  -- There are tokens for the platform, which is one of the two.
  abbrev pub HasTokens : VerifyPlatform → Type 0
  HasTokens x = has_x_credentials creds ≡ true
  HasTokens linkedin = is_set creds.access_token ≡ true
  HasTokens unsupported = ⊥

  -- The platform, with tokens for it, replies to the request for the identifier, which is not empty,
  -- with status 200 and such details.
  abbrev pub IsConfirmed : VerifyPlatform → Option String → Details → Type 0
  IsConfirmed platform none details = ⊥
  IsConfirmed platform (some id) details =
      (id ≢ "") × HasTokens platform × (fetch id ≡ response 200 details)

  -- What the verification finds, and when.
  pub data Finds (platform : VerifyPlatform) (id : Option String) : Checked → Type 0 where
    confirmed :
        IsConfirmed platform id texts
        → Finds platform id (record { verified = true; textual = true })
    odd :
        IsConfirmed platform id other
        → Finds platform id (record { verified = true; textual = false })
    lost :
        ¬ (IsConfirmed platform id texts)
        → ¬ (IsConfirmed platform id other)
        → Finds platform id not_verified

  other_status :
      (id : String) (status : ℕ) (details details' : Details)
      → fetch id ≡ response status details
      → (status == 200) ≡ false
      → ¬ (fetch id ≡ response 200 details')
  other_status id status details details' h bad =
      λ c. let same : status ≡ 200 = cc in absurd (ground (arith, bad, (==_iff status 200).1 same))

  replied-Finds :
      (platform : VerifyPlatform) (id : String) (r : PostReply)
      → id ≢ ""
      → HasTokens platform
      → fetch id ≡ r
      → Finds platform (some id) (or_not_verified (reply_confirms r))
  unfolding reply_confirms
  replied-Finds platform id (raises e) full given h = lost (λ c. cc) (λ c. cc)
  replied-Finds platform id (response status unreadable) full given h =
      elim (Bool-cases (status == 200)) [
        | inl fine ↦ rw fine (lost (λ c. cc) (λ c. cc))
        | inr bad ↦ rw bad (lost (λ c. cc) (λ c. cc))
      ]
  replied-Finds platform id (response status texts) full given h =
      elim (Bool-cases (status == 200)) [
        | inl fine ↦
            rw fine
              (confirmed (full, given, h ∙ ap (λ n. response n texts) ((==_iff status 200).0 fine)))
        | inr bad ↦ rw bad (lost (λ c. other_status id status texts texts h bad c.2) (λ c. cc))
      ]
  replied-Finds platform id (response status other) full given h =
      elim (Bool-cases (status == 200)) [
        | inl fine ↦
            rw fine (odd (full, given, h ∙ ap (λ n. response n other) ((==_iff status 200).0 fine)))
        | inr bad ↦ rw bad (lost (λ c. cc) (λ c. other_status id status other other h bad c.2))
      ]

  -- With a token test `b`, as both platforms have one.
  guarded-Finds :
      (platform : VerifyPlatform) (id : String) (b : Bool)
      → HasTokens platform ↔ (b ≡ true)
      → Finds platform (some id) (
          or_not_verified (
            if str_eq id ""
            then ok not_verified
            else if not b
            then ok not_verified
            else reply_confirms (fetch id)))
  guarded-Finds platform id b tokens = elim (Bool-cases (str_eq id "")) [
    | inl empty ↦ rw empty (
        lost (λ c. absurd (c.0 ((eq_iff id "").0 empty)))
          (λ c. absurd (c.0 ((eq_iff id "").0 empty))))
    | inr full ↦ rw full (elim (Bool-cases b) [
      | inr missing ↦ rw missing (lost (refused missing) (refused missing))
      | inl given ↦
          rw given
            (replied-Finds platform id (fetch id) (str_differs id "" full) (tokens.1 given) refl)
    ])
  ]
    where
      refused : {details : Details} → b ≡ false → ¬ (IsConfirmed platform (some id) details)
      refused missing c = absurd (ground (arith, missing, tokens.0 c.1))

  pub verify_on-Finds :
      (platform : VerifyPlatform) (id : Option String)
      → Finds platform id (or_not_verified (verify_on fetch creds platform id))
  unfolding verify_on verify_x verify_linkedin
  verify_on-Finds x none = lost (λ c. c) (λ c. c)
  verify_on-Finds linkedin none = lost (λ c. c) (λ c. c)
  verify_on-Finds unsupported none = lost (λ c. c) (λ c. c)
  verify_on-Finds unsupported (some id) = lost (λ c. c.1) (λ c. c.1)
  verify_on-Finds x (some id) = guarded-Finds x id (has_x_credentials creds) ((λ t. t), (λ t. t))
  verify_on-Finds linkedin (some id) =
      guarded-Finds linkedin id (is_set creds.access_token) ((λ t. t), (λ t. t))
