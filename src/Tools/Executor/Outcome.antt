-- ===== src/Tools/Executor/Outcome.antt =====
-- What a call of a tool does.
use agent_operator.Errors.{Error, rate_limit_error, model_error, tool_error, retry_error}
use agent_operator.Prelude.{
  ℕ, zero, suc, ◌≤◌, ◌≡◌, refl, ap, ◌⊎◌, inl, inr, Bool-cases, arith, String, Bool, true, false,
  Option, none, some, List, ◌∷◌, length, if◌then◌else◌, Table, lookup, new_key, Result, ok, err,
  Action, ◌>>=◌, catch,
}
use agent_operator.Tools.{BaseTool, ToolRegistry}
use agent_operator.Tools.Executor.{
  CallStatus, success, failed, ToolCall, ExecutionContext, Engine, ToolExecutionResult,
  is_retryable, finished, execute_once, Retry, execute_with_retry, finish_tool_call, report_failure,
  report_success, execute_tool,
}

-- What follows an attempt when `n` more may be made.
abbrev pub after_attempt :
    Retry
    → ℕ
    → (Error → Bool)
    → Action Engine String
    → Result String × Engine
    → Result String × Engine
after_attempt retry n on m (ok a, s) = (ok a, s)
after_attempt retry zero on m (err e, s) = if on e then (err retry_error, s) else (err e, s)
after_attempt retry (suc n) on m (err e, s) = if on e then retry (suc n) on m s else (err e, s)

-- tenacity's documented behaviour under `stop_after_attempt` and `retry_if_exception_type`: a value
-- and an exception of another type end it, and RetryError is raised after the last attempt.
pub record IsRetry (retry : Retry) : Type 0 where
  pub attempt :
      (n : ℕ) (on : Error → Bool) (m : Action Engine String) (s : Engine)
      → retry (suc n) on m s ≡ after_attempt retry n on m (m s)

abbrev pub times : ℕ → String → List String → List String
times zero name names = names
times (suc k) name names = times k name (name ∷ names)

-- The exceptions after which a tool is executed again: RateLimitError, ModelError and ToolError.
abbrev pub IsRetried : Error → Type 0
IsRetried e = (e ≡ rate_limit_error) ⊎ ((e ≡ model_error) ⊎ (e ≡ tool_error))

is_retryable-IsRetried : (e : Error) → is_retryable e ≡ true → IsRetried e
is_retryable-IsRetried rate_limit_error h = inl refl
is_retryable-IsRetried model_error h = inr (inl refl)
is_retryable-IsRetried tool_error h = inr (inr refl)
is_retryable-IsRetried _ h = cc

unretried : (e : Error) → is_retryable e ≡ false → ¬ (IsRetried e)
unretried e h (inl same) = absurd (ground (arith, h, ap is_retryable same))
unretried e h (inr (inl same)) = absurd (ground (arith, h, ap is_retryable same))
unretried e h (inr (inr same)) = absurd (ground (arith, h, ap is_retryable same))

-- The executions of a tool, of which at most so many are made, by the number of the first one: how
-- many they are, and what they come to. A value ends them, and so does an exception that is not
-- retried; after any other the tool is executed once more, and after the last one RetryError is
-- raised.
pub data Attempts (tool : BaseTool) : ℕ → ℕ → ℕ → Result String → Type 0 where
  returned :
      {n i : ℕ} {output : String}
      → tool.execute i ≡ ok output
      → Attempts tool (suc n) i 1 (ok output)
  raised :
      {n i : ℕ} {e : Error}
      → tool.execute i ≡ err e
      → ¬ (IsRetried e)
      → Attempts tool (suc n) i 1 (err e)
  exhausted :
      {i : ℕ} {e : Error}
      → tool.execute i ≡ err e
      → IsRetried e
      → Attempts tool 1 i 1 (err retry_error)
  again :
      {n i k : ℕ} {e : Error} {r : Result String}
      → tool.execute i ≡ err e
      → IsRetried e
      → Attempts tool (suc n) (suc i) k r
      → Attempts tool (suc (suc n)) i (suc k) r

-- The tool was executed once at least and `limit` times at most, one execution after the other, and
-- nothing else happened.
pub record HasTried (limit : ℕ) (tool : BaseTool) (s : Engine) (r : Result String) (s' : Engine)
    : Type 0 where
  pub tries : ℕ
  pub once : 1 ≤ tries
  pub bound : tries ≤ limit
  pub executed : s'.executed ≡ times tries tool.name s.executed
  pub rate_limiter : s'.rate_limiter ≡ s.rate_limiter
  pub tool_calls : s'.tool_calls ≡ s.tool_calls
  pub attempts : Attempts tool limit (length s.executed) tries r

HasTried-again :
    (n : ℕ) (tool : BaseTool) (s : Engine) (e : Error) (r : Result String) (s' : Engine)
    → tool.execute (length s.executed) ≡ err e
    → IsRetried e
    → HasTried (suc n) tool (record s { executed = tool.name ∷ s.executed }) r s'
    → HasTried (suc (suc n)) tool s r s'
HasTried-again n tool s e r s' failed_once retried h = record {
  tries = suc h.tries;
  once = omega arith;
  bound = omega (arith, h.bound);
  executed = h.executed;
  rate_limiter = h.rate_limiter;
  tool_calls = h.tool_calls;
  attempts = again failed_once retried h.attempts;
}

HasTried-once :
    (n : ℕ) (tool : BaseTool) (s : Engine) (r : Result String)
    → Attempts tool (suc n) (length s.executed) 1 r
    → HasTried (suc n) tool s r (record s { executed = tool.name ∷ s.executed })
HasTried-once n tool s r attempts = record {
  tries = 1;
  once = omega arith;
  bound = omega arith;
  executed = refl;
  rate_limiter = refl;
  tool_calls = refl;
  attempts = attempts;
}

module _ (retry : Retry) (law : IsRetry retry) where
  HasTried-last :
      (tool : BaseTool) (s : Engine) (r : Result String)
      → tool.execute (length s.executed) ≡ r
      → let (r', s') =
          after_attempt retry 0 is_retryable
            (execute_once tool)
            (r, record s { executed = tool.name ∷ s.executed }) in
        HasTried 1 tool s r' s'
  HasTried-last tool s (ok a) e = HasTried-once 0 tool s _ (returned e)
  HasTried-last tool s (err x) e = elim (Bool-cases (is_retryable x)) [
    | inl retried ↦
        rw retried (HasTried-once 0 tool s _ (exhausted e (is_retryable-IsRetried x retried)))
    | inr other ↦ rw other (HasTried-once 0 tool s _ (raised e (unretried x other)))
  ]

  HasTried-next :
      (n : ℕ) (tool : BaseTool) (s : Engine) (r : Result String)
      → (let (r', s') =
            retry
              (suc n)
              is_retryable
              (execute_once tool)
              (record s { executed = tool.name ∷ s.executed }) in
          HasTried (suc n) tool (record s { executed = tool.name ∷ s.executed }) r' s')
      → tool.execute (length s.executed) ≡ r
      → let (r', s') =
          after_attempt retry
            (suc n)
            is_retryable
            (execute_once tool)
            (r, record s { executed = tool.name ∷ s.executed }) in
        HasTried (suc (suc n)) tool s r' s'
  HasTried-next n tool s (ok a) ih e = HasTried-once (suc n) tool s _ (returned e)
  HasTried-next n tool s (err x) ih e = elim (Bool-cases (is_retryable x)) [
    | inl retried ↦
        rw retried (HasTried-again n tool s x _ _ e (is_retryable-IsRetried x retried) ih)
    | inr other ↦ rw other (HasTried-once (suc n) tool s _ (raised e (unretried x other)))
  ]

  retry-HasTried :
      (n : ℕ) (tool : BaseTool) (s : Engine)
      → let (r, s') = retry (suc n) is_retryable (execute_once tool) s in
        HasTried (suc n) tool s r s'
  unfolding execute_once
  retry-HasTried zero tool s =
      rw (law.attempt 0 is_retryable (execute_once tool) s) (HasTried-last tool s _ refl)
  retry-HasTried (suc n) tool s =
      rw (law.attempt (suc n) is_retryable (execute_once tool) s)
        (HasTried-next n tool s _ (retry-HasTried n tool _) refl)

-- A tool was executed, at most three times: it answered, and its row tells of a success, or it did
-- not, and ToolError is raised and its row tells of a failure.
pub record IsExecuted (tool : BaseTool) (row : Option ℕ) (s : Engine)
    (r : Result ToolExecutionResult) (s' : Engine) : Type 0 where
  pub tries : ℕ
  pub once : 1 ≤ tries
  pub bound : tries ≤ 3
  pub executed : s'.executed ≡ times tries tool.name s.executed
  pub rate_limiter : s'.rate_limiter ≡ s.rate_limiter
  pub answer : Result String
  pub attempts : Attempts tool 3 (length s.executed) tries answer
  pub outcome :
      ((output : String) × (answer ≡ ok output)
        × (r ≡ ok (record { tool_call_id = row; output = output }))
        × (s'.tool_calls ≡ finished row success s.tool_calls))
      ⊎ ((e : Error) × (answer ≡ err e)
          × (r ≡ err tool_error)
          × (s'.tool_calls ≡ finished row failed s.tool_calls))

module _ (retry : Retry) (law : IsRetry retry) (registry : ToolRegistry) (has_session : Bool) where
  concluded :
      (tool : BaseTool) (row : Option ℕ) (s : Engine) (r : Result String) (m : Engine)
      → HasTried 3 tool s r m
      → let (r', s') =
          (catch (λ _. (r, m)) (report_failure retry registry has_session row)
              >>= report_success retry registry has_session row)
            s in
        IsExecuted tool row s r' s'
  unfolding catch ◌>>=◌ report_failure report_success finish_tool_call
  concluded tool row s (ok output) m h = record {
    tries = h.tries;
    once = h.once;
    bound = h.bound;
    executed = h.executed;
    rate_limiter = h.rate_limiter;
    answer = _;
    attempts = h.attempts;
    outcome = inl (output, refl, refl, ap (finished row success) h.tool_calls);
  }
  concluded tool row s (err e) m h = record {
    tries = h.tries;
    once = h.once;
    bound = h.bound;
    executed = h.executed;
    rate_limiter = h.rate_limiter;
    answer = _;
    attempts = h.attempts;
    outcome = inr (e, refl, refl, ap (finished row failed) h.tool_calls);
  }

  pub execute_tool-IsExecuted :
      (tool : BaseTool) (row : Option ℕ) (s : Engine)
      → let (r, s') = execute_tool retry registry has_session tool row s in
        IsExecuted tool row s r s'
  unfolding execute_tool execute_with_retry catch ◌>>=◌
  execute_tool-IsExecuted tool row s = concluded tool row s _ _ (retry-HasTried retry law 2 tool s)

-- The row of a call: one that was not there before tells the tool, its risk and the status, or
-- there is no row, for an engine without a session or a call outside an agent run.
abbrev pub IsLogged :
    Bool
    → ExecutionContext
    → BaseTool
    → CallStatus
    → Table ToolCall
    → Option ℕ
    → Table ToolCall
    → Type 0
IsLogged has_session ctx tool status before row after =
    ((run_id : ℕ) × (ctx.agent_run_id ≡ some run_id)
      × (has_session ≡ true)
      × (row ≡ some (new_key before))
      × (lookup (new_key before) after
          ≡ some (record {
            agent_run_id = run_id;
            tool_name = tool.name;
            risk_level = tool.permissions.risk_level;
            status = status;
          })))
    ⊎ (((ctx.agent_run_id ≡ none) ⊎ (has_session ≡ false)) × (row ≡ none) × (after ≡ before))
