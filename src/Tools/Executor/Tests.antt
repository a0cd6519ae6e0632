-- ===== src/Tools/Executor/Tests.antt =====
-- A call of a tool that fails once and then answers, and the theorems about calls at it.
use agent_operator.Errors.{
  Error, authentication_error, approval_required_error, rate_limit_error, retry_error,
}
use agent_operator.Prelude.{
  ℕ, zero, suc, String, ◌≡◌, ◌⊎◌, refl, Bool, true, false, some, [], ◌∷◌, if◌then◌else◌, Result, ok,
  err, Action,
}
use agent_operator.Policy.{low, high}
use agent_operator.Tools.{BaseTool, ToolRegistry}
use agent_operator.Tools.Executor.{ExecutionContext, Engine, Retry, enforce_permissions, execute}
use agent_operator.Tools.Executor.Permissions.{
  IsAuthenticated, NeedsApproval, IsApproved, enforce_permissions_exact,
}
use agent_operator.Tools.Executor.Outcome.{IsRetry, after_attempt}
use agent_operator.Tools.Executor.Calls.{IsRefused, HasCalled, execute_exact}

-- A retry decorator with the documented behaviour.
abbrev go_on :
    (Error → Bool) → Action Engine String → Result String × Engine → Result String × Engine
go_on on rest (ok a, s) = (ok a, s)
go_on on rest (err e, s) = if on e then rest s else (err e, s)

abbrev give_up : Action Engine String
give_up s = (err retry_error, s)

abbrev and_more : ℕ → (Error → Bool) → Action Engine String → Action Engine String
and_more zero on m s = go_on on give_up (m s)
and_more (suc n) on m s = go_on on (and_more n on m) (m s)

abbrev simple_retry : Retry
simple_retry zero on m = m
simple_retry (suc n) on m = and_more n on m

simple_attempt :
    (n : ℕ) (on : Error → Bool) (m : Action Engine String) (p : Result String × Engine)
    → (elim n [ zero ↦ go_on on give_up p | suc k ↦ go_on on (and_more k on m) p ])
      ≡ after_attempt simple_retry n on m p
simple_attempt zero on m (ok a, s) = refl
simple_attempt zero on m (err e, s) = refl
simple_attempt (suc n) on m (ok a, s) = refl
simple_attempt (suc n) on m (err e, s) = refl

simple_law :
    (n : ℕ) (on : Error → Bool) (m : Action Engine String) (s : Engine)
    → simple_retry (suc n) on m s ≡ after_attempt simple_retry n on m (m s)
simple_law zero on m s = simple_attempt zero on m (m s)
simple_law (suc n) on m s = simple_attempt (suc n) on m (m s)

simple_retry-IsRetry : IsRetry simple_retry
simple_retry-IsRetry = record { attempt = simple_law }

abbrev flaky_search : BaseTool
flaky_search = record {
  name = "web_search";
  permissions = record {
    risk_level = low;
    requires_approval = false;
    requires_authentication = false;
    supports_idempotency = true;
  };
  execute = λ n. elim n [ zero ↦ err rate_limit_error | suc _ ↦ ok "found" ];
}

abbrev demo_registry : ToolRegistry
demo_registry = ("web_search", flaky_search) ∷ []

abbrev nobody : ExecutionContext
nobody = record { agent_run_id = some 7; authenticated = false; approved_actions = [] }

abbrev demo_engine : Engine
demo_engine = record {
  rate_limiter = record { rpm = 60; buckets = [] };
  tool_calls = [];
  executed = [];
}

execute_exact_example :
    let (r, s') = execute simple_retry demo_registry true "web_search" nobody 0 demo_engine in
    IsRefused simple_retry demo_registry true "web_search" nobody 0 demo_engine r s'
    ⊎ HasCalled simple_retry demo_registry true "web_search" nobody 0 demo_engine r s'
execute_exact_example =
    execute_exact simple_retry demo_registry true "web_search" nobody 0 demo_engine
      simple_retry-IsRetry

abbrev posting : BaseTool
posting = record {
  name = "social_publish";
  permissions = record {
    risk_level = high;
    requires_approval = true;
    requires_authentication = true;
    supports_idempotency = true;
  };
  execute = λ _. ok "posted";
}

enforce_permissions_exact_example :
    ((enforce_permissions posting nobody ≡ ok tt)
      × IsAuthenticated posting nobody
      × (NeedsApproval posting nobody → IsApproved posting nobody))
    ⊎ ((enforce_permissions posting nobody ≡ err authentication_error)
        × ¬ IsAuthenticated posting nobody)
    ⊎ ((enforce_permissions posting nobody ≡ err approval_required_error)
        × IsAuthenticated posting nobody
        × NeedsApproval posting nobody
        × ¬ IsApproved posting nobody)
enforce_permissions_exact_example = enforce_permissions_exact posting nobody
