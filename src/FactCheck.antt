-- ===== src/FactCheck.antt =====
-- app/tools/builtin/fact_check.py: the verdict on a claim. A confidence is an exact fraction. The
-- search and the fetch, through the engine, are parameters, as are lower case and the digits of `re`.
pub mod Laws
mod Tests
use agent_operator.Errors.{research_error}
use agent_operator.Prelude.{
  ℕ, zero, suc, ◌+◌, ◌*◌, min, Bool, true, false, not, ◌&&◌, ◌||◌, Option, none, some, String, List,
  [], ◌∷◌, ◌++◌, length, leb, ltb, ◌==◌, take, drop, any, contains, Action, pure, raise_if, ◌>>=◌,
  ◌>>◌, if◌then◌else◌,
}
use agent_operator.Text.{Text, codes, strip, is_empty, includes}

pub data FactCheckVerdict : Type 0 where
  supported unsupported contradicted unverifiable : FactCheckVerdict

pub record Confidence : Type 0 where
  pub numerator : ℕ
  pub denominator : ℕ

pub record FactCheckClaimInput : Type 0 where
  pub claim : Text
  pub source_url : Option Text

pub record FactCheckResult : Type 0 where
  pub claim : Text
  pub verdict : FactCheckVerdict
  pub confidence : Confidence
  pub evidence : List Text
  pub contradicting_evidence : List Text

-- `_CONTRADICTION_CUES`.
abbrev pub contradiction_cues : List Text
contradiction_cues =
    codes "not true"
    ∷ codes "false"
    ∷ codes "incorrect"
    ∷ codes "debunk"
    ∷ codes "contradict"
    ∷ codes "misinformation"
    ∷ codes "fake"
    ∷ codes "no evidence"
    ∷ codes "scam"
    ∷ codes "fraudulent"
    ∷ []

abbrev pub is_letter : ℕ → Bool
is_letter c = (leb 65 c && leb c 90) || (leb 97 c && leb c 122)

-- What is read so far is a token if it has two characters, and counts if it has more than three.
abbrev pub with_token : Text → List Text → List Text
with_token piece tokens = if ltb 3 (length piece) then piece ∷ tokens else tokens

-- `_TOKEN_RE.findall`, with the token that is being read, and the tokens of more than three
-- characters.
unfoldable pub tokens_from : Text → Text → List Text
tokens_from piece [] = with_token piece []
tokens_from [] (c ∷ s) =
    let begun = tokens_from (c ∷ []) s in
    let passed = tokens_from [] s in if is_letter c then begun else passed
tokens_from (d ∷ piece) (c ∷ s) =
    let longer = tokens_from ((d ∷ piece) ++ c ∷ []) s in
    let ended = tokens_from [] s in
    if is_letter c || c == 95 then longer else with_token (d ∷ piece) ended

unfoldable pub count_in : Text → List Text → ℕ
count_in page [] = 0
count_in page (token ∷ tokens) =
    let rest = count_in page tokens in if includes token page then suc rest else rest

-- 1, -1 and 0.
pub data Signal : Type 0 where
  supports contradicts neutral : Signal

abbrev pub signal_of : List Text → Text → Signal
signal_of [] page = neutral
signal_of (token ∷ tokens) page =
    if ltb (10 * count_in page (token ∷ tokens)) (3 * length (token ∷ tokens))
    then neutral
    else if any (λ cue. includes cue page) contradiction_cues
    then contradicts
    else supports

-- `_verdict`.
unfoldable pub verdict_of : ℕ → ℕ → FactCheckVerdict × Confidence
verdict_of zero zero = (unverifiable, record { numerator = 0; denominator = 1 })
verdict_of (suc n) zero =
    (supported, record { numerator = 165 + 35 * min (suc n) 3; denominator = 300 })
verdict_of n (suc m) = (
  contradicted,
  record { numerator = 3 * (suc m + n) + 6 * suc m; denominator = 10 * (suc m + n) },
)

-- `str.strip` of quotation marks, at the start and at the end.
unfoldable pub strip_quotes_left : Text → Text
strip_quotes_left [] = []
strip_quotes_left (c ∷ s) = let rest = strip_quotes_left s in if c == 34 then rest else c ∷ s

abbrev pub keep_quote : ℕ → Text → Text
keep_quote c [] = if c == 34 then [] else c ∷ []
keep_quote c (d ∷ s) = c ∷ d ∷ s

unfoldable pub strip_quotes_right : Text → Text
strip_quotes_right [] = []
strip_quotes_right (c ∷ s) = keep_quote c (strip_quotes_right s)

module _ (lower : Text → Text) (is_digit : ℕ → Bool) where
  -- `_signal_for_claim`.
  unfoldable pub signal_for_claim : Text → Text → Signal
  signal_for_claim claim page_text = signal_of (tokens_from [] (lower claim)) (lower page_text)

  -- The digits and the bracket that end a citation, after its bracket and whether digits came: how
  -- many characters, or 0.
  unfoldable pub citation_rest : Bool → ℕ → Text → ℕ
  citation_rest begun n [] = 0
  citation_rest begun n (c ∷ s) =
      let rest = citation_rest true (suc n) s in
      if is_digit c then rest else if begun && c == 93 then suc n else 0

  abbrev pub citation_length : Text → ℕ
  citation_length [] = 0
  citation_length (c ∷ s) = if c == 91 then citation_rest false 1 s else 0

  -- `_CITATION_RE.sub("", claim)`, from a place so many characters before the end of a citation.
  unfoldable pub without_citations : ℕ → Text → Text
  without_citations n [] = []
  without_citations (suc n) (c ∷ s) = without_citations n s
  without_citations zero (c ∷ s) =
      let length = citation_length (c ∷ s) in
      let rest = without_citations 0 s in
      let after = without_citations (length_before length) s in
      if length == 0 then c ∷ rest else after
    where
      length_before : ℕ → ℕ
      length_before zero = 0
      length_before (suc n) = n

  -- `_narrow_query`.
  unfoldable pub narrow_query : Text → Text
  narrow_query claim =
      let cleaned =
        strip (strip_quotes_left (strip_quotes_right (strip (without_citations 0 claim)))) in
      take 200 (if is_empty cleaned then claim else cleaned)

  module _ {W : Type 0} (web_search : Text → Action W (List Text))
      (web_fetch : Text → Action W Text) where
    abbrev pub noted : Signal → Text → List Text × List Text → List Text × List Text
    noted supports url (supporting, contradicting) = (supporting ++ url ∷ [], contradicting)
    noted contradicts url (supporting, contradicting) = (supporting, contradicting ++ url ∷ [])
    noted neutral url found = found

    -- A page is fetched and its signal noted.
    unfoldable pub weigh : Text → Text → List Text × List Text → Action W (List Text × List Text)
    weigh claim url found = do
      content ← web_fetch url
      pure (noted (signal_for_claim claim content) url found)

    -- The loop over the hits.
    unfoldable pub weigh_all :
        Text → List Text → List Text × List Text → Action W (List Text × List Text)
    weigh_all claim [] found = pure found
    weigh_all claim (url ∷ urls) found = do next ← weigh claim url found; weigh_all claim urls next

    abbrev pub weigh_source :
        Text → Option Text → List Text × List Text → Action W (List Text × List Text)
    weigh_source claim none found = pure found
    weigh_source claim (some url) found = if is_empty url then pure found else weigh claim url found

    unfoldable pub result_for : Text → List Text × List Text → FactCheckResult
    result_for claim (supporting, contradicting) =
        let (verdict, confidence) = verdict_of (length supporting) (length contradicting) in
        record {
          claim = claim;
          verdict = verdict;
          confidence = confidence;
          evidence = supporting;
          contradicting_evidence = contradicting;
        }

    -- `_check_claim`.
    unfoldable pub check_claim : ℕ → Text → Option Text → Action W FactCheckResult
    check_claim max_search_results claim source_url = do
      hits ← web_search (narrow_query claim)
      found ← weigh_all claim (take max_search_results hits) ([], [])
      all ← weigh_source claim source_url found
      pure (result_for claim all)

    unfoldable pub check_claims : ℕ → List FactCheckClaimInput → Action W (List FactCheckResult)
    check_claims max_search_results [] = pure []
    check_claims max_search_results (item ∷ items) = do
      result ← check_claim max_search_results item.claim item.source_url
      results ← check_claims max_search_results items
      pure (result ∷ results)

    -- `execute`, with whether the engine was wired and the names of the registered tools.
    unfoldable pub execute_fact_check :
        Bool → List String → ℕ → List FactCheckClaimInput → Action W (List FactCheckResult)
    execute_fact_check wired tools max_search_results claims = do
      raise_if (not wired) research_error
      raise_if (not (contains tools "web_search" && contains tools "web_fetch")) research_error
      check_claims max_search_results claims
