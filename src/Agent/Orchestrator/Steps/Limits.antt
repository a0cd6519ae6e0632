-- ===== src/Agent/Orchestrator/Steps/Limits.antt =====
-- What `_check_limits` enforces, and the bounds that it gives the execution of a plan.
use agent_operator.Errors.{timeout_error, cancellation_error}
use agent_operator.Prelude.{
  suc, ◌≤◌, ◌<◌, ◌≡◌, ◌⊎◌, inl, inr, true, false, arith, ltb, leb, Bool-cases, ok, err, ◌>>=◌,
}
use agent_operator.Agent.Orchestrator.World.{Env, World}
use agent_operator.Agent.Orchestrator.Steps.{effective_timeout, check_limits}

module _ (env : Env) (w : World) where
  -- A check counts itself and changes nothing else.
  pub check_limits_effect : (check_limits env w).1 ≡ record w { checks = suc w.checks }
  unfolding check_limits ◌>>=◌
  check_limits_effect = ground arith

  -- The limits that a run is within.
  pub record IsWithin : Type 0 where
    pub not_cancelled : env.is_cancelled w.checks ≡ false
    pub in_time : env.elapsed w.checks ≤ effective_timeout env w.task_timeout
    pub iterations : w.progress.iterations < env.limits.max_iterations
    pub tool_calls : w.progress.tool_call_count < env.limits.max_tool_calls

  -- The check passes exactly within all limits. Outside them it raises CancellationError for a
  -- cancelled task and the operator's TimeoutError otherwise.
  pub check_limits_exact :
      (((check_limits env w).0 ≡ ok tt) × IsWithin)
      ⊎ (((check_limits env w).0 ≡ err cancellation_error) × (env.is_cancelled w.checks ≡ true))
      ⊎ (((check_limits env w).0 ≡ err timeout_error)
          × (env.is_cancelled w.checks ≡ false)
          × ¬ IsWithin)
  unfolding check_limits ◌>>=◌
  check_limits_exact = elim (Bool-cases (env.is_cancelled w.checks)) [
    | inl gone ↦ inr (inl (ground arith, gone))
    | inr there ↦
        elim (Bool-cases (ltb (effective_timeout env w.task_timeout) (env.elapsed w.checks))) [
          | inl late ↦ inr (inr (ground arith, there, (λ i. ground (arith, i.in_time))))
          | inr in_time ↦ elim (Bool-cases (leb env.limits.max_iterations w.progress.iterations)) [
            | inl many ↦ inr (inr (ground arith, there, (λ i. ground (arith, i.iterations))))
            | inr few ↦
                elim (Bool-cases (leb env.limits.max_tool_calls w.progress.tool_call_count)) [
                  | inl many ↦ inr (inr (ground arith, there, (λ i. ground (arith, i.tool_calls))))
                  | inr some_left ↦ inl (ground arith, ground arith)
                ]
          ]
        ]
  ]
