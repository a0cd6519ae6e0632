-- ===== src/Research/Pipeline/Tests.antt =====
-- A run of the pipeline over two pages that disagree.
use mathlib.Core.Option
use mathlib.Core.List.{Perm}
use agent_operator.Prelude.{
  ℕ, ◌-◌, ◌≡◌, refl, true, false, none, some, List, [], ◌∷◌, map, length, get_elem?, ok, ◌>>=◌,
}
use agent_operator.Text.{Text, codes, is_empty, text_eq}
use agent_operator.Research.{Source, Claim, primary, community}
use agent_operator.Research.Ranking.{sort_by_confidence_and_freshness}
use agent_operator.Research.Ranking.Laws.{IsRanked, sort_by_confidence_and_freshness-IsRanked}
use agent_operator.Research.CrossCheck.{
  cross_check, cross_check_from, link_all, link, conflict, overlaps, consistent, distinct, has_word,
  common, joint, contradict,
}
use agent_operator.Research.CrossCheck.Marks.{mark, first_against}
use agent_operator.Research.CrossCheck.Laws.{cross_check_exact}
use agent_operator.Research.Pipeline.{
  Setting, ResearchResult, search_sources, run_sub_tool, run_research,
}
use agent_operator.Research.Pipeline.Laws.{IsCited, Answers, run_research-IsCited}

-- Every character is a word.
abbrev characters : Text → List Text
characters t = map (λ c. c ∷ []) t

abbrev site : ℕ → Source
site n = record {
  url = n ∷ [];
  source_type = community;
  title = none;
  published_at = none;
  retrieved_at = none;
}

abbrev stated : ℕ → Text → Text → Claim
stated n claim evidence = record {
  claim = claim;
  source = site n;
  evidence = evidence;
  confidence = 40;
  contradicting_evidence = none;
}

abbrev two_claims : List Claim
two_claims = stated 1 (codes "ab") (codes "xy") ∷ stated 2 (codes "ba") (codes "z") ∷ []

-- Each gets the evidence of the other.
disputed :
    map (λ c. c.contradicting_evidence) (cross_check characters two_claims)
    ≡ some (codes "z") ∷ some (codes "xy") ∷ []
unfolding cross_check cross_check_from link_all link conflict overlaps consistent distinct has_word
    common joint contradict text_eq is_empty
disputed = refl

cross_check_exact_example :
    get_elem? (cross_check characters two_claims) 1
    ≡ Option.map
        (mark (first_against characters two_claims 1 (length two_claims)))
        (get_elem? two_claims 1)
cross_check_exact_example = cross_check_exact characters refl two_claims 1

abbrev two_sources : List Source
two_sources = site 1 ∷ record (site 2) { source_type = primary } ∷ []

sort_by_confidence_and_freshness-IsRanked_example :
    let ranked = sort_by_confidence_and_freshness (λ age. 100 - age) 50 two_sources in
    IsRanked (λ age. 100 - age) 50 ranked × Perm ranked two_sources
sort_by_confidence_and_freshness-IsRanked_example =
    sort_by_confidence_and_freshness-IsRanked (λ age. 100 - age) 50 two_sources

-- The search finds one page, whose text is one sentence.
abbrev bare : Setting (Unit {0})
bare = record {
  registered = λ _. true;
  web_search = λ _ _ w. (ok (record { title = []; url = codes "a" } ∷ []), w);
  lang_search = λ _ _ w. (ok [], w);
  web_fetch = λ _ w. (ok (some (codes "The sky over the town is blue and clear today.")), w);
  ainvoke = λ _ _ w. (ok (codes "done"), w);
  split_text = λ t. t ∷ [];
  looks_injected = λ _. false;
  lower = λ t. t;
  words = characters;
  decay = λ age. 100 - age;
  now = 50;
  max_sources = 15;
  max_search_results = 5;
}

bare_answers : Answers bare
bare_answers v d w = (codes "done", refl)

run_research-IsCited_example :
    (r : ResearchResult) × ((run_research bare [] tt).0 ≡ ok r) × IsCited 15 r
unfolding search_sources run_sub_tool ◌>>=◌
run_research-IsCited_example = run_research-IsCited bare [] _ tt tt refl bare_answers refl
