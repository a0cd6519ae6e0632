-- ===== src/Content/Validation.antt =====
-- app/content/validators.py and app/content/tone_safety.py: the checks of a content. The messages of
-- issues are left out.
pub mod Laws
mod Tests
use agent_operator.Prelude.{
  ℕ, zero, suc, take, drop, ◌+◌, ◌-◌, Bool, true, false, not, ◌&&◌, ◌||◌, Option, none, some,
  String, List, [], ◌∷◌, ◌++◌, length, leb, ltb, ◌==◌, contains, if◌then◌else◌,
}
use agent_operator.Text.{Text, codes, strip, is_empty, starts_with, includes}
use agent_operator.Social.{Platform, x, linkedin}
use agent_operator.Social.Publish.{content_hash}

pub data Check : Type 0 where
  length_check links duplicates tone_check safety formatting : Check

-- `ContentValidationResult`, with the check of each issue.
pub record ContentValidationResult : Type 0 where
  pub valid : Bool
  pub issues : List Check

-- `PLATFORM_CHARACTER_LIMITS`.
abbrev pub platform_character_limits : Platform → ℕ
platform_character_limits x = 280
platform_character_limits linkedin = 3000

abbrev pub validate_length : Platform → Text → Option Check
validate_length platform content =
    if ltb (platform_character_limits platform) (length content) then some length_check else none

-- `[^\\s]` in a raw string: neither a backslash nor the letter s.
abbrev pub in_url : ℕ → Bool
in_url c = not (c == 92 || c == 115)

unfoldable pub url_body : Text → Text
url_body [] = []
url_body (c ∷ s) = let rest = url_body s in if in_url c then c ∷ rest else []

-- The length of `https?://` at the start of a text, or 0.
abbrev pub scheme_length : Text → ℕ
scheme_length s =
    if starts_with (codes "https://") s then 8 else if starts_with (codes "http://") s then 7 else 0

-- What `_URL_PATTERN` matches at the start of a text.
unfoldable pub url_at : Text → Text
url_at s =
    let n = scheme_length s in
    let body = url_body (drop n s) in if n == 0 || is_empty body then [] else take n s ++ body

-- `_URL_PATTERN.findall`, from a place so many characters before the end of the last match.
unfoldable pub find_urls : ℕ → Text → List Text
find_urls n [] = []
find_urls (suc n) (c ∷ s) = find_urls n s
find_urls zero (c ∷ s) =
    let url = url_at (c ∷ s) in
    let rest = find_urls (length url - 1) s in if is_empty url then rest else url ∷ rest

abbrev is_letter : ℕ → Bool
is_letter c = (leb 65 c && leb c 90) || (leb 97 c && leb c 122)

abbrev two_letters : Text → Bool
two_letters (c ∷ d ∷ s) = is_letter c && is_letter d
two_letters s = false

abbrev pub add_issue : Option Check → List Check → List Check
add_issue none issues = issues
add_issue (some issue) issues = issue ∷ issues

abbrev pub as_validation : List Check → ContentValidationResult
as_validation [] = record { valid = true; issues = [] }
as_validation (issue ∷ issues) = record { valid = false; issues = issue ∷ issues }

-- `re` takes a letter, a digit or an underscore for `\w`.
module _ (is_word : ℕ → Bool) where
  abbrev pub in_host : ℕ → Bool
  in_host c = is_word c || (c == 46 || c == 45)

  -- `[\w.-]+\.[a-zA-Z]{2,}` at the start of a text, of which something was read already or nothing.
  unfoldable pub has_domain : Bool → Text → Bool
  has_domain begun [] = false
  has_domain begun (c ∷ s) =
      let rest = has_domain true s in (begun && (c == 46 && two_letters s)) || (in_host c && rest)

  unfoldable pub is_malformed : Text → Bool
  is_malformed url = includes (32 ∷ []) url || not (has_domain false (drop (scheme_length url) url))

  unfoldable pub first_malformed : List Text → Option Check
  first_malformed [] = none
  first_malformed (url ∷ urls) =
      let rest = first_malformed urls in if is_malformed url then some links else rest

  abbrev pub validate_links : Text → Option Check
  validate_links content = first_malformed (find_urls 0 content)

  module _ (sha256 : Text → String) where
    abbrev pub validate_duplicate : Text → List String → Option Check
    validate_duplicate content existing_hashes =
        if contains existing_hashes (content_hash sha256 content) then some duplicates else none

    abbrev pub found_issues : Platform → Text → List String → List Check
    found_issues platform content existing_hashes = add_issue (validate_length platform content) (
        add_issue (validate_links content)
          (add_issue (validate_duplicate content existing_hashes) []))

    unfoldable pub validate_content : Platform → Text → List String → ContentValidationResult
    validate_content platform content existing_hashes =
        if is_empty (strip content)
        then record { valid = false; issues = formatting ∷ [] }
        else as_validation (found_issues platform content existing_hashes)
