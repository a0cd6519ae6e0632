-- ===== src/Agent/Recovery/Laws.antt =====
-- Which failures are retried, handed to a human, or end the task.
use native.Mathlib.Nat.{pow-suc}
use agent_operator.Errors.{Error, approval_required_error, timeout_error, retryable}
use agent_operator.Prelude.{ℕ, zero, suc, ◌^◌, ◌≤◌, ◌<◌, ◌≡◌, ◌≢◌, ◌↔◌, ◌⊎◌, true, arith}
use agent_operator.Agent.Recovery.{
  LimitSettings, retry, escalate, ErrorValue, exception, classify, decide,
}

-- A failure is retried exactly if its class is marked retryable, it is no timeout, and fewer than
-- `max_retries` retries were made.
pub classify-eq-retry_iff :
    (limits : LimitSettings) (e : Error) (n : ℕ)
    → (classify limits (exception e) n ≡ retry)
      ↔ ((retryable e ≡ true) × (e ≢ timeout_error) × (n < limits.max_retries))
unfolding classify retryable
classify-eq-retry_iff limits e n = ground arith

-- A failure is handed to a human exactly if it is a timeout, a missing approval, or a retryable
-- failure whose retries are used up.
pub classify-eq-escalate_iff :
    (limits : LimitSettings) (e : Error) (n : ℕ)
    → (classify limits (exception e) n ≡ escalate) ↔ (
        (e ≡ approval_required_error)
        ⊎ (e ≡ timeout_error)
        ⊎ ((retryable e ≡ true) × (limits.max_retries ≤ n)))
unfolding classify retryable
classify-eq-escalate_iff limits e n = ground arith

pow-pos : (n : ℕ) → 1 ≤ 2 ^ n
pow-pos zero = omega arith
pow-pos (suc n) = rw pow-suc (omega (arith, pow-pos n))

-- A retry waits between 1 and 30 seconds; any other decision carries no wait.
pub decide_backoff :
    (limits : LimitSettings) (v : ErrorValue) (n : ℕ)
    → let d = decide limits v n in
      ((d.action ≡ retry) × (1 ≤ d.backoff_seconds) × (d.backoff_seconds ≤ 30))
      ⊎ ((d.action ≢ retry) × (d.backoff_seconds ≡ 0))
unfolding decide
decide_backoff limits v n = ground (arith, pow-pos n)
