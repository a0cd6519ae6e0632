-- ===== src/FactCheck/Tests.antt =====
-- A claim with a citation, and two pages.
use agent_operator.Prelude.{
  ℕ, ◌+◌, ◌≡◌, refl, Bool, none, List, [], ◌∷◌, ◌&&◌, leb, ok, Action, pure, if◌then◌else◌,
}
use agent_operator.Text.{Text, codes, text_eq}
use agent_operator.FactCheck.{
  FactCheckResult, check_claim, narrow_query, without_citations, citation_rest, tokens_from,
}
use agent_operator.FactCheck.Laws.{IsChecked, urls_read, check_claim_exact}

abbrev is_ascii_digit : ℕ → Bool
is_ascii_digit c = leb 48 c && leb c 57

abbrev page_of : Text → Text
page_of url = if text_eq url (codes "a") then codes "cats purr" else codes "that cats purr is fake"

abbrev search_two : Text → Action ℕ (List Text)
search_two query = pure (codes "a" ∷ codes "b" ∷ [])

-- A fetch counts itself.
abbrev fetch_page : Text → Action ℕ Text
fetch_page url w = (ok (page_of url), w + 1)

tokens_of : tokens_from [] (codes "Cats do purr_2") ≡ codes "Cats" ∷ codes "purr_" ∷ []
unfolding tokens_from
tokens_of = refl

citation_dropped :
    without_citations (λ s. s) is_ascii_digit 0 (codes "ab [12]c[x]") ≡ codes "ab c[x]"
unfolding without_citations citation_rest
citation_dropped = refl

answers_always : (url : Text) (w : ℕ) → (fetch_page url w).0 ≡ ok (page_of url)
answers_always url w = refl

search_answers :
    search_two (narrow_query (λ s. s) is_ascii_digit (codes "cats purr")) 3
    ≡ (ok (codes "a" ∷ codes "b" ∷ []), 3)
unfolding pure
search_answers = refl

check_claim_exact_example :
    (r : FactCheckResult) × ((check_claim
        (λ s. s)
        is_ascii_digit
        search_two
        fetch_page
        5
        (codes "cats purr")
        none
        3).0
      ≡ ok r)
    × IsChecked
        (λ s. s)
        is_ascii_digit
        search_two
        fetch_page
        page_of
        answers_always
        (codes "cats purr")
        (urls_read
          (λ s. s)
          is_ascii_digit
          search_two
          fetch_page
          page_of
          answers_always
          5
          (codes "a" ∷ codes "b" ∷ [])
          none)
        r
check_claim_exact_example =
    check_claim_exact (λ s. s) is_ascii_digit search_two fetch_page page_of answers_always 5
      (codes "cats purr") none (codes "a" ∷ codes "b" ∷ []) 3 3 search_answers
