-- ===== src/Research/Ranking.antt =====
-- app/research/classification.py: how sources are ranked. The score of an age is the bits of a float,
-- which for floats that are not negative are ordered as the floats are. All sources are scored at one
-- time, where the code reads the clock again for each.
pub mod Laws
use agent_operator.Prelude.{
  ℕ, ◌-◌, Bool, ◌&&◌, ◌||◌, Option, none, some, List, [], ◌∷◌, ◌==◌, ltb, leb, if◌then◌else◌,
}
use agent_operator.Research.{
  SourceType, primary, official, secondary, community, unverified, Source,
}

-- `_rank`.
unfoldable pub rank : SourceType → ℕ
rank primary = 0
rank official = 1
rank secondary = 2
rank community = 3
rank unverified = 4

module _ (decay : ℕ → ℕ) (now : ℕ) where
  -- `freshness_score`, at a time in seconds. The score 0.0 has the bits 0.
  unfoldable pub freshness_score : Option ℕ → ℕ
  freshness_score none = 0
  freshness_score (some published_at) = decay (now - published_at)

  -- The order of `_key`.
  unfoldable pub comes_before : Source → Source → Bool
  comes_before a b =
      ltb (rank a.source_type) (rank b.source_type)
      || (rank a.source_type == rank b.source_type
          && leb (freshness_score a.published_at) (freshness_score b.published_at))

  unfoldable pub insert_source : Source → List Source → List Source
  insert_source s [] = s ∷ []
  insert_source s (t ∷ sources) =
      if comes_before s t then s ∷ t ∷ sources else t ∷ insert_source s sources

  -- `sort_by_confidence_and_freshness`: a stable sort.
  unfoldable pub sort_by_confidence_and_freshness : List Source → List Source
  sort_by_confidence_and_freshness [] = []
  sort_by_confidence_and_freshness (s ∷ sources) =
      insert_source s (sort_by_confidence_and_freshness sources)
