-- ===== src/Research.antt =====
-- app/schemas/research.py and app/research/evidence.py: sources, claims and their evidence.
pub mod Classification
pub mod Ranking
pub mod CrossCheck
pub mod Pipeline
use agent_operator.Prelude.{
  ℕ, ◌+◌, Bool, true, false, not, ◌&&◌, Option, none, some, List, [], ◌∷◌, leb, if◌then◌else◌,
}
use agent_operator.Text.{Text, is_empty}

pub data SourceType : Type 0 where
  primary official secondary community unverified : SourceType

-- A time is in seconds.
pub record Source : Type 0 where
  pub url : Text
  pub source_type : SourceType
  pub title : Option Text
  pub published_at : Option ℕ
  pub retrieved_at : Option ℕ

-- The confidence is in hundredths.
pub record Claim : Type 0 where
  pub claim : Text
  pub source : Source
  pub evidence : Text
  pub confidence : ℕ
  pub contradicting_evidence : Option Text

-- `bool(…)` of an optional text.
abbrev pub is_truthy : Option Text → Bool
is_truthy none = false
is_truthy (some t) = not (is_empty t)

unfoldable pub has_conflicting_evidence : Claim → Bool
unfolding is_empty
has_conflicting_evidence claim = is_truthy claim.contradicting_evidence

unfoldable pub is_high_confidence : ℕ → Claim → Bool
is_high_confidence threshold claim =
    leb threshold claim.confidence && not (has_conflicting_evidence claim)

pub record ConfidenceSummary : Type 0 where
  pub high_confidence : ℕ
  pub disputed : ℕ
  pub low_confidence : ℕ

abbrev count_claim : Claim → ConfidenceSummary → ConfidenceSummary
count_claim claim s =
    if has_conflicting_evidence claim
    then record s { disputed = s.disputed + 1 }
    else (if is_high_confidence 75 claim
        then record s { high_confidence = s.high_confidence + 1 }
        else record s { low_confidence = s.low_confidence + 1 })

-- The counts do not depend on the order in which the claims are visited.
unfoldable pub summarize_confidence : List Claim → ConfidenceSummary
summarize_confidence [] = record { high_confidence = 0; disputed = 0; low_confidence = 0 }
summarize_confidence (claim ∷ claims) = count_claim claim (summarize_confidence claims)
