-- ===== src/Content/Routes/Laws.antt =====
-- The drafts in the database.
use agent_operator.Errors.{Error}
use agent_operator.Prelude.{
  ℕ, ◌≡◌, refl, sym, subst, arith, inl, inr, Bool, Bool-cases, Option, none, some, String, List, [],
  ◌∷◌, Table, lookup, insert, lookup-insert, Result, ok, err, lift, or_raise, raise_if, ◌==◌,
}
use agent_operator.Prelude.Triple.{
  Triple, Ends, Triple-pure, Triple-gets, Triple-seq, Triple-given, Triple-modify, Triple-weaken,
}
use agent_operator.Text.{Text}
use agent_operator.Social.{Platform}
use agent_operator.Content.Validation.{validate_content}
use agent_operator.Content.Validation.Laws.{IsAcceptable, validate_content_iff}
use agent_operator.Content.Routes.{
  DraftStatus, DraftRow, ClaimInput, DraftRequest, post_draft, read_draft, patch_draft,
  DraftSession, put_draft, commit_drafts, draft_content, raise_if_invalid, raise_if_changed,
  changed, create_draft, get_draft, update_draft, handle_draft, serve_drafts,
}

module _ (is_word : ℕ → Bool) where
  -- Every draft passes the checks.
  abbrev pub AllAcceptable : Table DraftRow → Type 0
  AllAcceptable table =
      (id : ℕ) (row : DraftRow)
      → lookup id table ≡ some row
      → IsAcceptable is_word row.platform row.content

  AllAcceptable-insert :
      (id : ℕ) (row : DraftRow) (table : Table DraftRow)
      → AllAcceptable table
      → IsAcceptable is_word row.platform row.content
      → AllAcceptable (insert id row table)
  AllAcceptable-insert id row table h a j found e = elim (Bool-cases (j == id)) [
    | inl same ↦
        let here : some row ≡ some found = ground (arith, same, lookup-insert j id row table, e) in
        let equal : row ≡ found = ground (arith, here) in
        subst (λ row. IsAcceptable is_word row.platform row.content) equal a
    | inr other ↦ h j found (ground (arith, other, lookup-insert j id row table, e))
  ]

  -- What holds of a session through a request.
  record Sound (s : DraftSession) : Type 0 where
    pub now : AllAcceptable s.now
    pub saved : AllAcceptable s.saved

  module _ (sha256 : Text → String)
      (generate : Platform → Text → List ClaimInput → Result Text) where
    lift-Sound : {A : Type 0} (r : Result A) → Triple Sound (lift r) (λ _. Sound) (λ _. Sound)
    unfolding lift
    lift-Sound (ok a) = record { at = λ s h. h }
    lift-Sound (err e) = record { at = λ s h. h }

    raise_if_invalid-Sound :
        (platform : Platform) (content : Text)
        → Triple Sound
            (raise_if_invalid is_word sha256 generate platform content)
            (λ _ s. Sound s × IsAcceptable is_word platform content)
            (λ _. Sound)
    unfolding raise_if
    raise_if_invalid-Sound platform content = record {
      at = λ s h. elim (Bool-cases (validate_content is_word sha256 platform content []).valid) [
        | inl valid ↦
            rw valid (h, ((validate_content_iff is_word sha256 platform content []).0 valid).0)
        | inr invalid ↦ rw invalid h
      ];
    }

    -- The content that a draft is to have.
    raise_if_changed-Sound :
        (row : DraftRow) (content : Option Text)
        → IsAcceptable is_word row.platform row.content
        → Triple Sound
            (raise_if_changed is_word sha256 generate row.platform content)
            (λ _ s.
              Sound s
              × IsAcceptable is_word row.platform
                  (changed is_word sha256 generate content row.content))
            (λ _. Sound)
    raise_if_changed-Sound row none a = Triple-pure tt (λ s h. (h, a))
    raise_if_changed-Sound row (some content) a = raise_if_invalid-Sound row.platform content

    put_draft-Sound :
        (id : ℕ) (row : DraftRow)
        → Triple
            (λ s. Sound s × IsAcceptable is_word row.platform row.content)
            (put_draft id row)
            (λ _. Sound)
            (λ _. Sound)
    unfolding put_draft
    put_draft-Sound id row =
        Triple-modify _
          (λ s h. record { now = AllAcceptable-insert id row s.now h.0.now h.1; saved = h.0.saved })

    commit_drafts-Sound : Triple Sound commit_drafts (λ _. Sound) (λ _. Sound)
    unfolding commit_drafts
    commit_drafts-Sound = Triple-modify _ (λ s h. record { now = h.now; saved = h.now })

    create_draft-Sound :
        (platform : Platform) (given : Text) (research : List ClaimInput)
        → Triple Sound
            (create_draft is_word sha256 generate platform given research)
            (λ _. Sound)
            (λ _. Sound)
    unfolding create_draft
    create_draft-Sound platform given research =
        Triple-seq (lift-Sound (draft_content is_word sha256 generate platform given research))
          λ content. Triple-seq (raise_if_invalid-Sound platform content) λ _.
            Triple-seq {R = λ _ s. Sound s × IsAcceptable is_word platform content}
              (Triple-gets _ (λ s h. h))
              λ id.
                Triple-seq (put_draft-Sound id _)
                  λ _. Triple-seq commit_drafts-Sound λ _. Triple-pure _ (λ s h. h)

    found-Sound :
        (id : ℕ) (e : Error) (found : Option DraftRow)
        → Triple
            (λ s. Sound s × (found ≡ lookup id s.now))
            (or_raise found e)
            (λ row s. Sound s × IsAcceptable is_word row.platform row.content)
            (λ _. Sound)
    unfolding or_raise
    found-Sound id e none = record { at = λ s h. h.0 }
    found-Sound id e (some row) = record { at = λ s h. (h.0, h.0.now id row (sym h.1)) }

    get_draft-Sound :
        (id : ℕ) → Triple Sound (get_draft is_word sha256 generate id) (λ _. Sound) (λ _. Sound)
    unfolding get_draft
    get_draft-Sound id =
        Triple-seq {R = λ found s. Sound s × (found ≡ lookup id s.now)}
          (Triple-gets _ (λ s h. (h, refl)))
          λ found. Triple-weaken _ (found-Sound id _ found) (λ s h. h) (λ row s h. h.0) (λ e s h. h)

    update_draft-Sound :
        (id : ℕ) (content : Option Text) (status : Option DraftStatus)
        → Triple Sound
            (update_draft is_word sha256 generate id content status)
            (λ _. Sound)
            (λ _. Sound)
    unfolding update_draft
    update_draft-Sound id content status =
        Triple-seq {R = λ found s. Sound s × (found ≡ lookup id s.now)}
          (Triple-gets _ (λ s h. (h, refl)))
          λ found. Triple-seq (found-Sound id _ found) λ row.
            Triple-seq
              (Triple-given _ (λ s h.
                Triple-weaken _ (raise_if_changed-Sound row content h.1) (λ s h. h.0) (λ _ s h. h)
                  (λ e s h. h)))
              λ _.
                Triple-seq (Triple-seq (put_draft-Sound id _) λ _. commit_drafts-Sound)
                  λ _. Triple-pure _ (λ s h. h)

    handle_draft-Sound :
        (request : DraftRequest)
        → Triple Sound (handle_draft is_word sha256 generate request) (λ _. Sound) (λ _. Sound)
    unfolding handle_draft
    handle_draft-Sound (post_draft platform content research) =
        create_draft-Sound platform content research
    handle_draft-Sound (read_draft id) = get_draft-Sound id
    handle_draft-Sound (patch_draft id content status) = update_draft-Sound id content status

    Ends-Sound :
        {A : Type 0} (r : Result A) (s : DraftSession)
        → Ends (λ _. Sound) (λ _. Sound) r s
        → Sound s
    Ends-Sound (ok a) s h = h
    Ends-Sound (err e) s h = h

    -- If every draft passes the checks, then this still holds after any sequence of requests that
    -- create, read or change drafts, whatever text the language model writes.
    pub serve_drafts-AllAcceptable :
        (requests : List DraftRequest) (table : Table DraftRow)
        → AllAcceptable table
        → AllAcceptable (serve_drafts is_word sha256 generate requests table)
    unfolding serve_drafts
    serve_drafts-AllAcceptable [] table h = h
    serve_drafts-AllAcceptable (request ∷ requests) table h =
        serve_drafts-AllAcceptable requests _
          (Ends-Sound _ _ ((handle_draft-Sound request).at _ (record { now = h; saved = h }))).saved
