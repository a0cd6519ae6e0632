-- ===== src/Agent/Recovery.antt =====
-- app/agents/recovery_agent.py: the recovery policy, and LimitSettings of app/config.py.
pub mod Laws
use agent_operator.Errors.{
  Error, validation_error, authentication_error, authorization_error, approval_required_error,
  timeout_error, rate_limit_error, is_agent_operator_error, retryable,
}
use agent_operator.Prelude.{
  ℕ, ◌^◌, String, min, Bool, true, false, not, ◌&&◌, ◌||◌, ltb, if◌then◌else◌,
}

pub record LimitSettings : Type 0 where
  pub max_iterations : ℕ
  pub max_tool_calls : ℕ
  pub max_execution_seconds : ℕ
  pub max_retries : ℕ
  pub max_research_sources : ℕ
  pub rate_limit_requests_per_minute : ℕ

abbrev pub default_limits : LimitSettings
default_limits = record {
  max_iterations = 25;
  max_tool_calls = 50;
  max_execution_seconds = 900;
  max_retries = 3;
  max_research_sources = 15;
  rate_limit_requests_per_minute = 60;
}

pub data RecoveryAction : Type 0 where
  retry escalate fail : RecoveryAction

-- The value under "error" of an observation, which the code types as `Any`: nothing, a text, or an
-- exception object.
pub data ErrorValue : Type 0 where
  absent : ErrorValue
  text : String → ErrorValue
  exception : Error → ErrorValue

pub record RecoveryDecision : Type 0 where
  pub action : RecoveryAction
  pub backoff_seconds : ℕ

-- The three `isinstance` tests that end in FAIL and the two that end in ESCALATE.
abbrev is_denied : Error → Bool
is_denied validation_error = true
is_denied authentication_error = true
is_denied authorization_error = true
is_denied _ = false

abbrev is_for_human : Error → Bool
is_for_human approval_required_error = true
is_for_human timeout_error = true
is_for_human _ = false

abbrev is_rate_limit_error : Error → Bool
is_rate_limit_error rate_limit_error = true
is_rate_limit_error _ = false

-- `_classify`. No text and no absent value is an instance of any class that it tests for.
unfoldable pub classify : LimitSettings → ErrorValue → ℕ → RecoveryAction
unfolding is_agent_operator_error retryable
classify limits absent retry_count = fail
classify limits (text s) retry_count = fail
classify limits (exception e) retry_count =
    if is_denied e
    then fail
    else if is_for_human e
    then escalate
    else if is_agent_operator_error e && not (retryable e)
    then fail
    else if is_rate_limit_error e || is_agent_operator_error e
    then (if ltb retry_count limits.max_retries then retry else escalate)
    else fail

abbrev is_retry : RecoveryAction → Bool
is_retry retry = true
is_retry _ = false

unfoldable pub decide : LimitSettings → ErrorValue → ℕ → RecoveryDecision
unfolding classify
decide limits error retry_count =
    let action = classify limits error retry_count in
    record {
      action = action;
      backoff_seconds = if is_retry action then min (2 ^ retry_count) 30 else 0;
    }
