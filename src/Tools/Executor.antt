-- ===== src/Tools/Executor.antt =====
-- app/tools/executor.py: the tool execution engine.
--
-- tenacity's decorator `retry` is a parameter. Time is given: the clock reading of a call is an
-- argument, and durations are left out.
pub mod Permissions
pub mod Outcome
pub mod Calls
mod Tests
use agent_operator.Errors.{
  Error, authentication_error, approval_required_error, rate_limit_error, model_error, tool_error,
  retry_error,
}
use agent_operator.Prelude.{
  ℕ, suc, String, Bool, true, false, not, ◌&&◌, ◌||◌, Option, none, some, List, [], ◌∷◌,
  if◌then◌else◌, contains, length, Table, lookup, insert, new_key, Result, ok, err, Action, pure,
  raise, lift, gets, modify, raise_if, ◌>>=◌, ◌>>◌, catch,
}
use agent_operator.Policy.{RiskLevel, requires_approval}
use agent_operator.Policy.RateLimit.{RateLimiter, acquire}
use agent_operator.Tools.{BaseTool, ToolRegistry, get}

pub data CallStatus : Type 0 where
  running success failed : CallStatus

-- A row of `tool_calls`.
pub record ToolCall : Type 0 where
  pub agent_run_id : ℕ
  pub tool_name : String
  pub risk_level : RiskLevel
  pub status : CallStatus

pub record ExecutionContext : Type 0 where
  pub agent_run_id : Option ℕ
  pub authenticated : Bool
  pub approved_actions : List String

-- What an engine changes: its rate limiter, the rows of its session, and the tools it has executed,
-- newest first.
pub record Engine : Type 0 where
  pub rate_limiter : RateLimiter
  pub tool_calls : Table ToolCall
  pub executed : List String

pub record ToolExecutionResult : Type 0 where
  pub tool_call_id : Option ℕ
  pub output : String

-- `isinstance(exc, _RETRYABLE_ERRORS)`.
abbrev pub is_retryable : Error → Bool
is_retryable rate_limit_error = true
is_retryable model_error = true
is_retryable tool_error = true
is_retryable _ = false

-- `_enforce_permissions`.
unfoldable pub enforce_permissions : BaseTool → ExecutionContext → Result (Unit {0})
enforce_permissions tool ctx =
    if tool.permissions.requires_authentication && not ctx.authenticated
    then err authentication_error
    else if (tool.permissions.requires_approval || requires_approval tool.permissions.risk_level)
        && not (contains ctx.approved_actions tool.name)
    then err approval_required_error
    else ok tt

-- `tool.execute(tool_input)`, with a note that the tool was executed.
unfoldable pub execute_once : BaseTool → Action Engine String
execute_once tool s =
    (tool.execute (length s.executed), record s { executed = tool.name ∷ s.executed })

-- The rows after the status of one was set.
unfoldable pub finished : Option ℕ → CallStatus → Table ToolCall → Table ToolCall
finished none status rows = rows
finished (some id) status rows = elim (lookup id rows) [
  | none ↦ rows
  | some call ↦ insert id (record call { status = status }) rows
]

-- tenacity's `retry`: the number of attempts, the exceptions to retry on, and what is called.
abbrev pub Retry : Type 0
Retry = ℕ → (Error → Bool) → Action Engine String → Action Engine String

module _ (retry : Retry) (registry : ToolRegistry) (has_session : Bool) where
  -- `_execute_with_retry`.
  unfoldable pub execute_with_retry : BaseTool → Action Engine String
  execute_with_retry tool = retry 3 is_retryable (execute_once tool)

  -- `_start_tool_call`.
  unfoldable pub start_tool_call : BaseTool → Option ℕ → Action Engine (Option ℕ)
  start_tool_call tool none = pure none
  start_tool_call tool (some run_id) =
      if has_session
      then (do
        id ← gets (λ s. new_key s.tool_calls)
        modify (λ s. record s {
          tool_calls =
              insert id
                (record {
                  agent_run_id = run_id;
                  tool_name = tool.name;
                  risk_level = tool.permissions.risk_level;
                  status = running;
                })
                s.tool_calls;
        })
        pure (some id))
      else pure none

  -- `_finish_tool_call`, without the output, the error and the duration that it stores.
  unfoldable pub finish_tool_call : Option ℕ → CallStatus → Action Engine (Unit {0})
  finish_tool_call row status =
      modify (λ s. record s { tool_calls = finished row status s.tool_calls })

  -- `self._rate_limiter.acquire(tool_name)` at the clock reading `now`.
  unfoldable pub acquire_token : String → ℕ → Action Engine Bool
  acquire_token name now s =
      let (allowed, limiter) = acquire name now s.rate_limiter in
      (ok allowed, record s { rate_limiter = limiter })

  -- The `except` clause of `execute`.
  unfoldable pub report_failure : Option ℕ → Error → Action Engine String
  report_failure row e = do finish_tool_call row failed; raise tool_error

  -- The end of `execute`.
  unfoldable pub report_success : Option ℕ → String → Action Engine ToolExecutionResult
  report_success row output = do
    finish_tool_call row success
    pure (record { tool_call_id = row; output = output })

  -- The part of `execute` after the row is written.
  unfoldable pub execute_tool : BaseTool → Option ℕ → Action Engine ToolExecutionResult
  execute_tool tool row =
      catch (execute_with_retry tool) (report_failure row) >>= report_success row

  -- `execute`.
  unfoldable pub execute : String → ExecutionContext → ℕ → Action Engine ToolExecutionResult
  execute name ctx now = do
    tool ← lift (get registry name)
    lift (enforce_permissions tool ctx)
    allowed ← acquire_token name now
    raise_if (not allowed) rate_limit_error
    row ← start_tool_call tool ctx.agent_run_id
    execute_tool tool row
