-- ===== src/Policy.antt =====
-- app/policies/: risk levels and the approval rule. The rate limiter is in RateLimit.antt.
pub mod RateLimit
use agent_operator.Prelude.{Bool, true, false}

pub data RiskLevel : Type 0 where
  low medium high : RiskLevel

-- `risk_level in APPROVAL_REQUIRED_LEVELS`, whose one member is HIGH.
unfoldable pub requires_approval : RiskLevel → Bool
requires_approval high = true
requires_approval _ = false
