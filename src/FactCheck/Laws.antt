-- ===== src/FactCheck/Laws.antt =====
-- What the result of a check says of the pages that were read.
use agent_operator.Prelude.{
  ℕ, ◌*◌, ◌≤◌, ◌≡◌, refl, inl, inr, arith, Bool, Bool-cases, true, false, not, ◌&&◌, Option, none,
  some, List, [], ◌∷◌, ◌++◌, append_assoc, append-nil, take, length, any, leb, ok, Action, pure,
  ◌>>=◌, if◌then◌else◌,
}
use agent_operator.Text.{Text, is_empty, includes}
use agent_operator.FactCheck.{
  FactCheckVerdict, supported, unsupported, contradicted, unverifiable, FactCheckResult, Signal,
  supports, contradicts, neutral, signal_of, signal_for_claim, contradiction_cues, tokens_from,
  count_in, narrow_query, noted, weigh, weigh_all, weigh_source, result_for, verdict_of,
  check_claim,
}

abbrev pub is_support : Signal → Bool
is_support supports = true
is_support _ = false

abbrev pub is_contradiction : Signal → Bool
is_contradiction contradicts = true
is_contradiction _ = false

abbrev pub given : Option Text → List Text
given none = []
given (some url) = if is_empty url then [] else url ∷ []

-- The URLs whose pages pass a test.
abbrev pub passing : (Text → Bool) → List Text → List Text
passing test [] = []
passing test (url ∷ urls) = let rest = passing test urls in if test url then url ∷ rest else rest

passing-cong :
    (p q : Text → Bool) (xs : List Text) → ((x : Text) → p x ≡ q x) → passing p xs ≡ passing q xs
passing-cong p q [] same = refl
passing-cong p q (x ∷ xs) same = rw (same x, passing-cong p q xs same) refl

passing-append :
    (test : Text → Bool) (xs ys : List Text)
    → passing test (xs ++ ys) ≡ passing test xs ++ passing test ys
passing-append test [] ys = refl
passing-append test (x ∷ xs) ys = elim (Bool-cases (test x)) [
  | inl passed ↦ rw (passed, passing-append test xs ys) refl
  | inr failed ↦ rw (failed, passing-append test xs ys) refl
]

-- Three tenths at least of some tokens are in a page, and there are tokens.
abbrev pub mentions : List Text → Text → Bool
mentions [] page = false
mentions (token ∷ tokens) page =
    leb (3 * length (token ∷ tokens))
      (10 * length (passing (λ t. includes t page) (token ∷ tokens)))

abbrev pub has_cue : Text → Bool
has_cue page = any (λ cue. includes cue page) contradiction_cues

count_in-eq-length :
    (page : Text) (tokens : List Text)
    → count_in page tokens ≡ length (passing (λ t. includes t page) tokens)
unfolding count_in
count_in-eq-length page [] = refl
count_in-eq-length page (token ∷ tokens) = ground (arith, count_in-eq-length page tokens)

signal_of-supports :
    (tokens : List Text) (page : Text)
    → is_support (signal_of tokens page) ≡ (mentions tokens page && not (has_cue page))
signal_of-supports [] page = refl
signal_of-supports (token ∷ tokens) page = ground (arith, count_in-eq-length page (token ∷ tokens))

signal_of-contradicts :
    (tokens : List Text) (page : Text)
    → is_contradiction (signal_of tokens page) ≡ (mentions tokens page && has_cue page)
signal_of-contradicts [] page = refl
signal_of-contradicts (token ∷ tokens) page =
    ground (arith, count_in-eq-length page (token ∷ tokens))

-- What a verdict says of the evidence. No claim is ever unsupported.
abbrev pub Says : FactCheckVerdict → FactCheckResult → Type 0
Says contradicted r = ¬ (r.contradicting_evidence ≡ [])
Says supported r = (r.contradicting_evidence ≡ []) × ¬ (r.evidence ≡ [])
Says unverifiable r = (r.contradicting_evidence ≡ []) × (r.evidence ≡ [])
Says unsupported r = ⊥

pub record IsVerdict (r : FactCheckResult) : Type 0 where
  pub says : Says r.verdict r
  pub at_most_one : r.confidence.numerator ≤ r.confidence.denominator

module _ (lower : Text → Text) (is_digit : ℕ → Bool) {W : Type 0}
    (web_search : Text → Action W (List Text)) (web_fetch : Text → Action W Text) where
  result_for-IsVerdict :
      (claim : Text) (supporting contradicting : List Text)
      → IsVerdict (result_for lower is_digit web_search web_fetch claim (supporting, contradicting))
  unfolding result_for verdict_of
  result_for-IsVerdict claim [] [] = record { says = (refl, refl); at_most_one = omega arith }
  result_for-IsVerdict claim (u ∷ us) [] = record {
    says = (refl, λ e. absurd (ground (arith, e)));
    at_most_one = ground arith;
  }
  result_for-IsVerdict claim us (v ∷ vs) = record {
    says = λ e. absurd (ground (arith, e));
    at_most_one = omega arith;
  }

  module _ (page : Text → Text)
      (answers : (url : Text) (w : W) → (web_fetch url w).0 ≡ ok (page url)) where
    -- The signal of the page under a URL.
    abbrev pub signal_at : Text → Text → Signal
    signal_at claim url = signal_for_claim lower is_digit claim (page url)

    -- The evidence found so far, with that of some more URLs.
    abbrev with_pages : Text → List Text → List Text × List Text → List Text × List Text
    with_pages claim urls (supporting, contradicting) = (
      supporting ++ passing (λ url. is_support (signal_at claim url)) urls,
      contradicting ++ passing (λ url. is_contradiction (signal_at claim url)) urls,
    )

    noted-with_pages :
        (claim url : Text) (found : List Text × List Text)
        → noted lower is_digit web_search web_fetch (signal_at claim url) url found
          ≡ with_pages claim (url ∷ []) found
    noted-with_pages claim url (supporting, contradicting) = go (signal_at claim url)
      where
        go :
            (signal : Signal)
            → noted lower is_digit web_search web_fetch signal url (supporting, contradicting) ≡ (
              supporting ++ passing (λ url. is_support signal) (url ∷ []),
              contradicting ++ passing (λ url. is_contradiction signal) (url ∷ []),
            )
        go supports = rw (append-nil contradicting) refl
        go contradicts = rw (append-nil supporting) refl
        go neutral = rw (append-nil supporting, append-nil contradicting) refl

    weigh_lem :
        (claim url : Text) (found : List Text × List Text) (w : W)
        → (weigh lower is_digit web_search web_fetch claim url found w).0
          ≡ ok (with_pages claim (url ∷ []) found)
    unfolding weigh ◌>>=◌
    weigh_lem claim url found w = rw (answers url w) (rw (noted-with_pages claim url found) refl)

    with_pages-cons :
        (claim url : Text) (urls : List Text) (found : List Text × List Text)
        → with_pages claim urls (with_pages claim (url ∷ []) found)
          ≡ with_pages claim (url ∷ urls) found
    with_pages-cons claim url urls (supporting, contradicting) =
        rw
          (
            append_assoc supporting,
            append_assoc contradicting,
            ← passing-append (λ url. is_support (signal_at claim url)) (url ∷ []) urls,
            ← passing-append (λ url. is_contradiction (signal_at claim url)) (url ∷ []) urls,
          )
          refl

    weigh_all_lem :
        (claim : Text) (urls : List Text) (found : List Text × List Text) (w : W)
        → (weigh_all lower is_digit web_search web_fetch claim urls found w).0
          ≡ ok (with_pages claim urls found)
    unfolding weigh_all ◌>>=◌
    weigh_all_lem claim [] (a, b) w = rw (append-nil a, append-nil b) refl
    weigh_all_lem claim (url ∷ urls) found w =
        rw
          (
            weigh_lem claim url found w,
            weigh_all_lem claim urls (with_pages claim (url ∷ []) found)
                (weigh lower is_digit web_search web_fetch claim url found w).1,
            with_pages-cons claim url urls found,
          )
          refl

    weigh_source_lem :
        (claim : Text) (source : Option Text) (found : List Text × List Text) (w : W)
        → (weigh_source lower is_digit web_search web_fetch claim source found w).0
          ≡ ok (with_pages claim (given source) found)
    unfolding pure
    weigh_source_lem claim none (a, b) w = rw (append-nil a, append-nil b) refl
    weigh_source_lem claim (some url) (a, b) w = elim (Bool-cases (is_empty url)) [
      | inl empty ↦ rw (empty, append-nil a, append-nil b) refl
      | inr there ↦ rw there (weigh_lem claim url (a, b) w)
    ]

    -- The URLs that are read for a claim: the first hits, and its own source.
    abbrev pub urls_read : ℕ → List Text → Option Text → List Text
    urls_read max_search_results hits source = take max_search_results hits ++ given source

    -- A result for the pages that were read, by the tokens of the claim.
    pub record IsChecked (claim : Text) (urls : List Text) (r : FactCheckResult) : Type 0 where
      pub evidence :
          r.evidence
          ≡ passing
              (λ url.
                let text = lower (page url) in
                mentions (tokens_from [] (lower claim)) text && not (has_cue text))
              urls
      pub contradicting :
          r.contradicting_evidence
          ≡ passing
              (λ url.
                let text = lower (page url) in
                mentions (tokens_from [] (lower claim)) text && has_cue text)
              urls
      pub verdict : IsVerdict r

    with_pages-IsChecked :
        (claim : Text) (urls : List Text)
        → IsChecked claim urls
            (result_for lower is_digit web_search web_fetch claim (with_pages claim urls ([], [])))
    unfolding result_for signal_for_claim
    with_pages-IsChecked claim urls =
        let tokens = tokens_from [] (lower claim) in
        record {
          evidence = passing-cong _ _ urls (λ url. signal_of-supports tokens (lower (page url)));
          contradicting =
              passing-cong _ _ urls (λ url. signal_of-contradicts tokens (lower (page url)));
          verdict = result_for-IsVerdict claim _ _;
        }

    with_pages-append :
        (claim : Text) (us vs : List Text)
        → with_pages claim vs (with_pages claim us ([], [])) ≡ with_pages claim (us ++ vs) ([], [])
    with_pages-append claim us vs =
        rw
          (
            passing-append (λ url. is_support (signal_at claim url)) us vs,
            passing-append (λ url. is_contradiction (signal_at claim url)) us vs,
          )
          refl

    -- If the search answers and every fetch answers with the page of its URL, whatever either does to
    -- the state, then a check returns. Its evidence are the URLs among the first hits and the claim's
    -- own source whose page mentions the claim without a cue of contradiction, in this order; its
    -- contradicting evidence are those whose page mentions it with one. A page mentions a claim that
    -- has tokens if three tenths of them at least are in it. The claim is contradicted if there is
    -- contradicting evidence, supported if there is only evidence, and unverifiable if there is none;
    -- the confidence is at most one.
    pub check_claim_exact :
        (max_search_results : ℕ) (claim : Text) (source : Option Text) (hits : List Text) (w w' : W)
        → web_search (narrow_query lower is_digit claim) w ≡ (ok hits, w')
        → (r : FactCheckResult) × ((check_claim lower is_digit web_search web_fetch
              max_search_results claim source w).0
            ≡ ok r)
          × IsChecked claim (urls_read max_search_results hits source) r
    unfolding check_claim ◌>>=◌
    check_claim_exact n claim source hits w w' found =
        let first = with_pages claim (take n hits) ([], []) in
        let w'' =
          (weigh_all lower is_digit web_search web_fetch claim (take n hits) ([], []) w').1 in
        (
          result_for lower is_digit web_search web_fetch claim
              (with_pages claim (urls_read n hits source) ([], [])),
          rw
              (
                found,
                weigh_all_lem claim (take n hits) ([], []) w',
                weigh_source_lem claim source first w'',
                with_pages-append claim (take n hits) (given source),
              )
              refl,
          with_pages-IsChecked claim (urls_read n hits source),
        )
