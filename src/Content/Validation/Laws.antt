-- ===== src/Content/Validation/Laws.antt =====
-- Which contents pass, and what the pattern for links makes of a text.
use agent_operator.Prelude.{
  ℕ, ◌≤◌, ◌≡◌, refl, ◌↔◌, inl, inr, arith, Bool, Bool-cases, Option-cases, true, false, none, some,
  String, List, [], ◌∷◌, ◌++◌, length, All, contains,
}
use agent_operator.Text.{Text, codes, strip, is_empty, includes, starts_with}
use agent_operator.Social.{Platform}
use agent_operator.Social.Publish.{content_hash}
use agent_operator.Content.Validation.{
  links, platform_character_limits, find_urls, is_malformed, first_malformed, validate_links,
  validate_content, url_at, url_body, in_url,
}

module _ (is_word : ℕ → Bool) where
  -- Not blank, within the limit of the platform, and without a malformed link.
  pub record IsAcceptable (platform : Platform) (content : Text) : Type 0 where
    pub not_blank : is_empty (strip content) ≡ false
    pub short : length content ≤ platform_character_limits platform
    pub well_linked : All (λ url. is_malformed is_word url ≡ false) (find_urls 0 content)

  first_malformed-none :
      (urls : List Text)
      → first_malformed is_word urls ≡ none
      → All (λ url. is_malformed is_word url ≡ false) urls
  unfolding first_malformed
  first_malformed-none [] h = tt
  first_malformed-none (url ∷ urls) h = elim (Bool-cases (is_malformed is_word url)) [
    | inl bad ↦ absurd (ground (arith, bad, h))
    | inr good ↦ (good, first_malformed-none urls (ground (arith, good, h)))
  ]

  none-first_malformed :
      (urls : List Text)
      → All (λ url. is_malformed is_word url ≡ false) urls
      → first_malformed is_word urls ≡ none
  unfolding first_malformed
  none-first_malformed [] h = refl
  none-first_malformed (url ∷ urls) h = rw h.0 (none-first_malformed urls h.1)

  module _ (sha256 : Text → String) (platform : Platform) (content : Text)
      (hashes : List String) where
    passes :
        (validate_content is_word sha256 platform content hashes).valid ≡ true
        → IsAcceptable platform content × (contains hashes (content_hash sha256 content) ≡ false)
    unfolding validate_content
    passes h = elim (Option-cases (validate_links is_word content)) [
      | inl unlinked ↦ (
        record {
          not_blank = ground (arith, h);
          short = ground (arith, h, unlinked);
          well_linked = first_malformed-none _ unlinked;
        },
        ground (arith, h, unlinked),
      )
      | inr (issue, found) ↦ absurd (ground (arith, found, h))
    ]

    accepted :
        IsAcceptable platform content × (contains hashes (content_hash sha256 content) ≡ false)
        → (validate_content is_word sha256 platform content hashes).valid ≡ true
    unfolding validate_content
    accepted (a, fresh) =
        let unlinked : validate_links is_word content ≡ none =
          none-first_malformed (find_urls 0 content) a.well_linked in
        ground (arith, a.not_blank, a.short, fresh, unlinked)

    -- A content passes just if it is not blank, not longer than the platform allows, has no malformed
    -- link, and its hash is not among those given.
    pub validate_content_iff :
        ((validate_content is_word sha256 platform content hashes).valid ≡ true)
        ↔ (IsAcceptable platform content × (contains hashes (content_hash sha256 content) ≡ false))
    validate_content_iff = (passes, accepted)

url_body-space :
    (body rest : Text)
    → All (λ c. in_url c ≡ true) body
    → url_body (body ++ 32 ∷ rest) ≡ body ++ 32 ∷ url_body rest
unfolding url_body
url_body-space [] rest h = refl
url_body-space (c ∷ body) rest h = rw (h.0, url_body-space body rest h.1) refl

includes-space : (s t : Text) → includes (32 ∷ []) (s ++ 32 ∷ t) ≡ true
unfolding includes starts_with
includes-space [] t = refl
includes-space (c ∷ s) t = rw (includes-space s t) (ground arith)

-- How a link begins, with or without the s.
abbrev pub scheme : Bool → Text
scheme true = codes "https://"
scheme false = codes "http://"

url_at-scheme :
    (secure : Bool) (c : ℕ) (s : Text)
    → in_url c ≡ true
    → url_at (scheme secure ++ c ∷ s) ≡ scheme secure ++ url_body (c ∷ s)
unfolding url_at starts_with is_empty url_body
url_at-scheme true c s h = rw h refl
url_at-scheme false c s h = rw h refl

module _ (is_word : ℕ → Bool) where
  -- An http or https link at the start of a text, with at least one character behind the scheme and
  -- none that is a backslash or the letter s, is refused where a space follows it: the pattern
  -- `[^\\s]` of the source reads over spaces.
  pub links-eq-validate_links :
      (secure : Bool) (c : ℕ) (body rest : Text)
      → All (λ c. in_url c ≡ true) (c ∷ body)
      → validate_links is_word (scheme secure ++ ((c ∷ body) ++ 32 ∷ rest)) ≡ some links
  unfolding find_urls first_malformed is_malformed is_empty
  links-eq-validate_links true c body rest h =
      rw
        (
          url_at-scheme true c (body ++ 32 ∷ rest) h.0,
          url_body-space (c ∷ body) rest h,
          includes-space (scheme true ++ c ∷ body) (url_body rest),
        )
        refl
  links-eq-validate_links false c body rest h =
      rw
        (
          url_at-scheme false c (body ++ 32 ∷ rest) h.0,
          url_body-space (c ∷ body) rest h,
          includes-space (scheme false ++ c ∷ body) (url_body rest),
        )
        refl
