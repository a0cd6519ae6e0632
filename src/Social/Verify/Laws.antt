-- ===== src/Social/Verify/Laws.antt =====
-- When a post counts as verified, and what is stored about that.
use agent_operator.Errors.{value_error, tool_error, other_exception}
use agent_operator.Prelude.{
  ℕ, String, str_eq, eq_iff, ◌≡◌, ◌≢◌, refl, ap, ◌⊎◌, inl, inr, arith, true, false, Option, none,
  some, List, [], ◌∷◌, Bool-cases, if◌then◌else◌, Table, lookup, new_key, lookup-insert_self,
  Result, ok, err, pure, raise, ◌>>=◌,
}
use agent_operator.Social.{VerificationStatus, verified, SocialPost, Credentials}
use agent_operator.Social.Verify.Found.{
  str_differs, IsConfirmed, Finds, confirmed, odd, lost, verify_on-Finds,
}
use agent_operator.Social.Verify.{
  VerifyInput, Verifier, texts, other, PostReply, Checked, has_external_id, posts_with,
  or_not_verified, verify_on, status_of, store_status, verify_output, execute_verify,
}

-- The rows of a table, in order, whose post has an external identifier.
pub data AreMatches (id : String) : Table SocialPost → List (ℕ × SocialPost) → Type 0 where
  nothing : AreMatches id [] []
  skipped :
      {key : ℕ} {post : SocialPost} {posts : Table SocialPost} {rows : List (ℕ × SocialPost)}
      → ¬ (post.external_id ≡ some id)
      → AreMatches id posts rows
      → AreMatches id ((key, post) ∷ posts) rows
  matched :
      {key : ℕ} {post : SocialPost} {posts : Table SocialPost} {rows : List (ℕ × SocialPost)}
      → post.external_id ≡ some id
      → AreMatches id posts rows
      → AreMatches id ((key, post) ∷ posts) ((key, post) ∷ rows)

has_external_id_sound :
    (id : String) (found : Option String) → has_external_id id found ≡ true → found ≡ some id
has_external_id_sound id none h = absurd (ground (arith, h))
has_external_id_sound id (some given) h = ap some ((eq_iff given id).0 h)

has_external_id_complete :
    (id : String) (found : Option String) → has_external_id id found ≡ false → ¬ (found ≡ some id)
has_external_id_complete id none h = λ e. absurd (ground (arith, e))
has_external_id_complete id (some given) h =
    λ e. let same : given ≡ id = cc in absurd (ground (arith, h, (eq_iff given id).1 same))

posts_with-AreMatches :
    (id : String) (posts : Table SocialPost) → AreMatches id posts (posts_with id posts)
unfolding posts_with
posts_with-AreMatches id [] = nothing
posts_with-AreMatches id ((key, post) ∷ posts) =
    elim (Bool-cases (has_external_id id post.external_id)) [
      | inl mine ↦ rw mine (
          matched (has_external_id_sound id post.external_id mine) (posts_with-AreMatches id posts))
      | inr foreign ↦ rw foreign (
          skipped (has_external_id_complete id post.external_id foreign)
            (posts_with-AreMatches id posts))
    ]

few_cases :
    {A : Type 0} (xs : List A)
    → (xs ≡ [])
      ⊎ ((p : A) × (xs ≡ p ∷ []))
      ⊎ ((p : A) × (q : A) × (rest : List A) × (xs ≡ p ∷ q ∷ rest))
few_cases [] = inl refl
few_cases (p ∷ []) = inr (inl (p, refl))
few_cases (p ∷ q ∷ rest) = inr (inr (p, q, rest, refl))

module _ (fetch : String → PostReply) (creds : Credentials) where
  -- What a verification of a post with the input stores and returns. The hashes are compared where the
  -- post is confirmed. Where a detail of a confirmed post is no text, the output cannot be built.
  pub data Concludes (input : VerifyInput) (post : SocialPost)
      : VerificationStatus → Result VerificationStatus → Type 0 where
    agrees :
        IsConfirmed fetch creds input.platform post.external_id texts
        → post.content_hash ≡ input.expected_content_hash
        → Concludes input post verified (ok verified)
    differs :
        IsConfirmed fetch creds input.platform post.external_id texts
        → post.content_hash ≢ input.expected_content_hash
        → Concludes input post VerificationStatus.failed (ok VerificationStatus.failed)
    agrees_oddly :
        IsConfirmed fetch creds input.platform post.external_id other
        → post.content_hash ≡ input.expected_content_hash
        → Concludes input post verified (err value_error)
    differs_oddly :
        IsConfirmed fetch creds input.platform post.external_id other
        → post.content_hash ≢ input.expected_content_hash
        → Concludes input post VerificationStatus.failed (err value_error)
    unconfirmed :
        ¬ (IsConfirmed fetch creds input.platform post.external_id texts)
        → ¬ (IsConfirmed fetch creds input.platform post.external_id other)
        → Concludes input post VerificationStatus.failed (ok VerificationStatus.failed)

  Finds-Concludes :
      (input : VerifyInput) (post : SocialPost) (checked : Checked)
      → Finds fetch creds input.platform post.external_id checked
      → let status = status_of fetch creds input post checked in
        Concludes input post status (if checked.textual then ok status else err value_error)
  unfolding status_of
  Finds-Concludes input post _ (lost a b) = unconfirmed a b
  Finds-Concludes input post _ (confirmed c) =
      elim (Bool-cases (str_eq post.content_hash input.expected_content_hash)) [
        | inl same ↦
            rw same (agrees c ((eq_iff post.content_hash input.expected_content_hash).0 same))
        | inr other_hash ↦ rw other_hash (differs c (str_differs _ _ other_hash))
      ]
  Finds-Concludes input post _ (odd c) =
      elim (Bool-cases (str_eq post.content_hash input.expected_content_hash)) [
        | inl same ↦
            rw same (agrees_oddly c ((eq_iff post.content_hash input.expected_content_hash).0 same))
        | inr other_hash ↦ rw other_hash (differs_oddly c (str_differs _ _ other_hash))
      ]

  -- What stands in the session and for good after a verification of a post.
  pub record IsStored (s s' : Verifier) (key : ℕ) (post : SocialPost) (status : VerificationStatus)
      : Type 0 where
    pub updated : lookup key s'.saved.posts ≡ some (record post { verification_status = status })
    pub result :
        lookup (new_key s.now.results) s'.saved.results
        ≡ some (record { social_post_id = key; status = status })
    pub committed : s'.now ≡ s'.saved

  verify_output_lem :
      (checked : Checked) (status : VerificationStatus) (s : Verifier)
      → verify_output fetch creds checked status s
        ≡ (if checked.textual then ok status else err value_error, s)
  unfolding pure raise
  verify_output_lem checked status s = elim (Bool-cases checked.textual) [
    | inl fine ↦ rw fine refl
    | inr bad ↦ rw bad refl
  ]

  -- What is found of a post.
  abbrev found_of : VerifyInput → SocialPost → Checked
  found_of input post = or_not_verified (verify_on fetch creds input.platform post.external_id)

  one_post_lem :
      (input : VerifyInput) (s : Verifier) (key : ℕ) (post : SocialPost)
      → posts_with input.post_id s.now.posts ≡ (key, post) ∷ []
      → let status = status_of fetch creds input post (found_of input post) in
        execute_verify fetch creds input s ≡ (
          if (found_of input post).textual then ok status else err value_error,
          (store_status fetch creds key post status s).1,
        )
  unfolding execute_verify store_status ◌>>=◌
  one_post_lem input s key post one = rw one (verify_output_lem (found_of input post) _ _)

  -- A verification whose input's identifier just one post has stores a status in the post and in a new
  -- result and commits both. The status is verified exactly if the platform confirms the post, by
  -- status 200 with details that can be read, and the stored content hash is the expected one; the
  -- call returns it, or raises ValueError where a detail of a confirmed post is no text. Where no post
  -- has the identifier ToolError is raised, where several have it another exception, and nothing
  -- changes.
  pub execute_verify_exact :
      (input : VerifyInput) (s : Verifier)
      → let (r, s') = execute_verify fetch creds input s in
        ((key : ℕ) × (post : SocialPost) × (status : VerificationStatus) × AreMatches input.post_id
            s.now.posts
            ((key, post) ∷ [])
          × Concludes input post status r
          × IsStored s s' key post status)
        ⊎ (AreMatches input.post_id s.now.posts [] × (r ≡ err tool_error) × (s' ≡ s))
        ⊎ ((p : ℕ × SocialPost) × (q : ℕ × SocialPost) × (rest : List (ℕ × SocialPost)) × AreMatches
              input.post_id s.now.posts
              (p ∷ q ∷ rest)
            × (r ≡ err other_exception)
            × (s' ≡ s))
  unfolding execute_verify store_status ◌>>=◌
  execute_verify_exact input s =
      let found = posts_with-AreMatches input.post_id s.now.posts in
      elim (few_cases (posts_with input.post_id s.now.posts)) [
        | inl empty ↦ inr (inl (rw empty at found, rw empty refl, rw empty refl))
        | inr (inl ((key, post), one)) ↦
            let status = status_of fetch creds input post (found_of input post) in
            inl (
              key,
              post,
              status,
              rw one at found,
              rw (one_post_lem input s key post one) (
                  Finds-Concludes input post (found_of input post)
                    (verify_on-Finds fetch creds input.platform post.external_id)),
              rw (one_post_lem input s key post one) (record {
                updated =
                    lookup-insert_self key (record post { verification_status = status })
                      s.now.posts;
                result =
                    lookup-insert_self (new_key s.now.results)
                      (record { social_post_id = key; status = status }) s.now.results;
                committed = refl;
              }),
            )
        | inr (inr (p, q, rest, many)) ↦
            inr (inr (p, q, rest, rw many at found, rw many refl, rw many refl))
      ]
