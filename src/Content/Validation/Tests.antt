-- ===== src/Content/Validation/Tests.antt =====
-- A link that is refused for the text behind it.
use agent_operator.Prelude.{ℕ, ◌≡◌, refl, Bool, true, ◌&&◌, ◌||◌, some, [], ◌∷◌, ◌==◌, leb}
use agent_operator.Text.{codes, is_empty, starts_with}
use agent_operator.Content.Validation.{validate_links, links, find_urls, url_at, url_body}
use agent_operator.Content.Validation.Laws.{links-eq-validate_links}

-- ASCII only.
abbrev is_word_char : ℕ → Bool
is_word_char c =
    (leb 48 c && leb c 57) || ((leb 65 c && leb c 90) || ((leb 97 c && leb c 122) || c == 95))

-- The rest of the link after the letter s of `news` is not read.
urls_of_text : find_urls 0 (codes "http://a.de/news") ≡ codes "http://a.de/new" ∷ []
unfolding find_urls is_empty url_at starts_with url_body
urls_of_text = refl

links-eq-validate_links_example :
    validate_links is_word_char (codes "https://a.com and more") ≡ some links
links-eq-validate_links_example =
    links-eq-validate_links is_word_char true 97 (codes ".com") (codes "and more")
      (refl, (refl, (refl, (refl, (refl, tt)))))
