-- ===== src/Errors.antt =====
-- app/errors.py: the classes of the error hierarchy, with their class attributes.
use Prim.Native.Nat.{ℕ}
use mathlib.Core.Bool.{Bool, true, false}

-- The exceptions that the modelled code raises or catches. The classes under `AgentOperatorError`
-- come first; a class of Python or of a library is one of the others.
pub data Error : Type 0 where
  agent_operator_error validation_error authentication_error authorization_error tool_error
        browser_error model_error research_error rate_limit_error approval_required_error
        verification_error timeout_error cancellation_error invalid_state_transition_error :
      Error
  runtime_error value_error os_error permission_error integrity_error retry_error other_exception :
      Error
  -- A loop of the model has used up its fuel. The source has no such exception.
  out_of_fuel : Error

pub Error-discrete : Discrete Error
Error-discrete = hlevel

-- `isinstance(error, AgentOperatorError)`.
unfoldable pub is_agent_operator_error : Error → Bool
is_agent_operator_error runtime_error = false
is_agent_operator_error value_error = false
is_agent_operator_error os_error = false
is_agent_operator_error permission_error = false
is_agent_operator_error integrity_error = false
is_agent_operator_error retry_error = false
is_agent_operator_error other_exception = false
is_agent_operator_error out_of_fuel = false
is_agent_operator_error _ = true

-- The class attribute `retryable`; classes outside the hierarchy have none, and count as false.
unfoldable pub retryable : Error → Bool
retryable tool_error = true
retryable browser_error = true
retryable model_error = true
retryable research_error = true
retryable rate_limit_error = true
retryable timeout_error = true
retryable _ = false

-- The class attribute `http_status`; an exception outside the hierarchy becomes a 500 response.
unfoldable pub http_status : Error → ℕ
http_status validation_error = 422
http_status authentication_error = 401
http_status authorization_error = 403
http_status tool_error = 502
http_status browser_error = 502
http_status model_error = 502
http_status research_error = 502
http_status rate_limit_error = 429
http_status approval_required_error = 409
http_status verification_error = 502
http_status timeout_error = 504
http_status cancellation_error = 409
http_status invalid_state_transition_error = 409
http_status _ = 500
