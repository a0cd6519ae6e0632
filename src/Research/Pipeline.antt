-- ===== src/Research/Pipeline.antt =====
-- `DefaultResearchPipeline` of app/research/pipeline.py. The tools that it calls through the engine,
-- the splitter for long pages, the patterns of injected instructions and the language model are
-- parameters.
pub mod Laws
mod Tests
use agent_operator.Errors.{Error, research_error}
use agent_operator.Prelude.{
  ℕ, Bool, true, false, not, ◌&&◌, Option, none, some, String, List, [], ◌∷◌, ◌++◌, map, take,
  length, ltb, leb, if◌then◌else◌, Action, pure, raise_if, catch, ◌>>=◌, ◌>>◌,
}
use agent_operator.Text.{Text, is_empty, strip}
use agent_operator.Content.{split, Place, inside}
use agent_operator.Research.{Source, Claim, unverified, has_conflicting_evidence}
use agent_operator.Research.Classification.{classify_source_obj}
use agent_operator.Research.Ranking.{sort_by_confidence_and_freshness}
use agent_operator.Research.CrossCheck.{cross_check}

-- A result of a search.
pub record Hit : Type 0 where
  pub title : Text
  pub url : Text

-- What the pipeline is given, over a state of the world.
pub record Setting (W : Type 0) : Type 0 where
  pub registered : String → Bool
  pub web_search : Text → ℕ → Action W (List Hit)
  pub lang_search : Text → ℕ → Action W (List Hit)
  pub web_fetch : Text → Action W (Option Text)
  -- The answer to the prompt with the verified and the disputed claims.
  pub ainvoke : List Claim → List Claim → Action W Text
  pub split_text : Text → List Text
  pub looks_injected : Text → Bool
  pub lower : Text → Text
  pub words : Text → List Text
  pub decay : ℕ → ℕ
  pub now : ℕ
  pub max_sources : ℕ
  pub max_search_results : ℕ

pub record ResearchResult : Type 0 where
  pub question : Text
  pub summary : Option Text
  pub claims : List Claim
  pub sources_consulted : List Text
  pub conflicts : List Text

unfoldable pub disputed_claims : List Claim → List Claim
disputed_claims [] = []
disputed_claims (c ∷ claims) =
    let rest = disputed_claims claims in if has_conflicting_evidence c then c ∷ rest else rest

unfoldable pub verified_claims : List Claim → List Claim
verified_claims [] = []
verified_claims (c ∷ claims) =
    let rest = verified_claims claims in if has_conflicting_evidence c then rest else c ∷ rest

abbrev pub text_or_none : Text → Option Text
text_or_none [] = none
text_or_none (c ∷ t) = some (c ∷ t)

module _ {W : Type 0} (env : Setting W) where
  -- `_run_sub_tool`.
  unfoldable pub run_sub_tool : {A : Type 0} → String → Action W A → Action W A
  run_sub_tool name call = do raise_if (not (env.registered name)) research_error; call

  abbrev pub source_of : Hit → Source
  source_of hit = classify_source_obj env.lower (record {
    url = hit.url;
    source_type = unverified;
    title = text_or_none hit.title;
    published_at = none;
    retrieved_at = some env.now;
  })

  abbrev pub is_no_source : List Source → Bool
  is_no_source [] = true
  is_no_source (_ ∷ _) = false

  -- The second search of `search`, whose failure is only logged.
  unfoldable pub fall_back : Text → Action W (List Source)
  fall_back question =
      catch
        (do
          hits ← run_sub_tool "lang_search" (env.lang_search question env.max_search_results)
          pure (map source_of hits))
        (λ e. pure [])

  -- `search`.
  unfoldable pub search_sources : Text → Action W (List Source)
  search_sources question = do
    hits ← run_sub_tool "web_search" (env.web_search question env.max_search_results)
    sources ←
        (if is_no_source (map source_of hits) && env.registered "lang_search"
          then fall_back question
          else pure (map source_of hits))
    pure (take env.max_sources (sort_by_confidence_and_freshness env.decay env.now sources))

  -- `_chunk_text`.
  unfoldable pub chunk_text : Text → List Text
  chunk_text text = if leb (length text) 4000 then text ∷ [] else env.split_text text

  abbrev pub claim_of : Source → Text → Claim
  claim_of source sentence = record {
    claim = take 200 sentence;
    source = source;
    evidence = take 500 sentence;
    confidence = 40;
    contradicting_evidence = none;
  }

  -- The loop of `_extract_claims_from_text` over the sentences of a chunk.
  unfoldable pub claims_of : Source → List Text → List Claim
  claims_of source [] = []
  claims_of source (piece ∷ pieces) =
      let rest = claims_of source pieces in
      let sentence = strip piece in
      if ltb (length sentence) 30
      then rest
      else (if env.looks_injected sentence then rest else claim_of source sentence ∷ rest)

  -- `_extract_claims_from_text`, whose claims get their source in `extract_evidence`.
  unfoldable pub extract_claims_from_text : Source → Text → List Claim
  extract_claims_from_text source chunk = take 10 (claims_of source (split inside [] (strip chunk)))

  unfoldable pub claims_of_chunks : Source → List Text → List Claim
  claims_of_chunks source [] = []
  claims_of_chunks source (chunk ∷ chunks) =
      extract_claims_from_text source chunk ++ claims_of_chunks source chunks

  -- The text of a page that has one.
  abbrev pub page_claims : Source → Option Text → List Claim
  page_claims source none = []
  page_claims source (some content) =
      if is_empty (strip content) then [] else claims_of_chunks source (chunk_text content)

  -- `extract_evidence`.
  unfoldable pub extract_evidence : Source → Action W (List Claim)
  extract_evidence source = do
    fetched ← run_sub_tool "web_fetch" (env.web_fetch source.url)
    pure (page_claims source fetched)

  -- The loop of `run`: a source that fails is left out.
  unfoldable pub extract_all : List Source → Action W (List Claim)
  extract_all [] = pure []
  extract_all (source ∷ sources) = do
    claims ← catch (extract_evidence source) (λ e. pure [])
    rest ← extract_all sources
    pure (claims ++ rest)

  -- `synthesize`.
  unfoldable pub synthesize : List Claim → Action W Text
  synthesize claims = env.ainvoke (verified_claims claims) (disputed_claims claims)

  -- The rest of `run`, on the sources that were found. Of the summary without sources only the lack
  -- is kept.
  abbrev pub run_on : Text → List Source → Action W ResearchResult
  run_on question [] = pure (record {
    question = question;
    summary = none;
    claims = [];
    sources_consulted = [];
    conflicts = [];
  })
  run_on question (source ∷ sources) = do
    found ← extract_all (source ∷ sources)
    let claims = cross_check env.words found
    summary ← synthesize claims
    pure (record {
      question = question;
      summary = some summary;
      claims = claims;
      sources_consulted = map (λ s. s.url) (source ∷ sources);
      conflicts = map (λ c. c.claim) (disputed_claims claims);
    })

  -- `run`.
  unfoldable pub run_research : Text → Action W ResearchResult
  run_research question = do sources ← search_sources question; run_on question sources
