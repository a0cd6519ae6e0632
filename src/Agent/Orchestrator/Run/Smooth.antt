-- ===== src/Agent/Orchestrator/Run/Smooth.antt =====
-- The parts of a run in which nothing goes wrong: every graph answers, the limits suffice, and no
-- step needs an approval.
use agent_operator.Errors.{Error}
use agent_operator.Prelude.{
  ℕ, suc, ◌+◌, ◌≤◌, ◌<◌, ◌≡◌, refl, inl, inr, arith, String, Bool, true, false, Option, some, List,
  [], ◌∷◌, length, All, Option-cases, lookup, ok, Action, ◌>>=◌,
}
use agent_operator.Prelude.Triple.{
  Triple, Triple-pure, Triple-if, Triple-seq, Triple-given, Triple-weaken,
}
use agent_operator.Store.{PlanStep, Plan, Task, RunStatus, Session, put_run}
use agent_operator.Agent.Recovery.{RecoveryAction}
use agent_operator.Agent.Orchestrator.World.{
  answers, Env, World, AgentResult, in_session, set_progress, start_agent_run, finish_agent_run,
}
use agent_operator.Agent.Orchestrator.Steps.{
  proceed, effective_timeout, check_limits, invoke, invoke_subgraph, attempt,
  run_step_with_recovery, gate, execute_steps,
}
use agent_operator.Agent.Orchestrator.Steps.Limits.{
  IsWithin, check_limits_effect, check_limits_exact,
}
use agent_operator.Agent.Orchestrator.Run.Outcome.{framed}

-- What a run needs in order to complete a plan under a timeout.
pub record IsSmooth (env : Env) (timeout : Option ℕ) (plan : Plan) : Type 0 where
  pub has_graph : (step : PlanStep) → env.has_graph step.agent ≡ true
  pub answers_all : (n : ℕ) (step : PlanStep) → env.reply n step ≡ answers
  pub not_cancelled : (n : ℕ) → env.is_cancelled n ≡ false
  pub in_time : (n : ℕ) → env.elapsed n ≤ effective_timeout env timeout
  pub iterations : length plan ≤ env.limits.max_iterations
  pub tool_calls : length plan ≤ env.limits.max_tool_calls
  pub free : All (λ step. step.requires_approval ≡ false) plan
  pub browser : ℕ
  pub opens : env.browser_opens ≡ ok browser
  pub closes : env.browser_closes ≡ ok tt

abbrev pub Never : {S : Type 0} → Error → S → Type 0
Never e s = ⊥

abbrev pub Row : ℕ → Task → Session → Type 0
Row id t s = lookup id s.now.tasks ≡ some t

-- The timeout and the two counters of a run.
abbrev pub Counts : Option ℕ → ℕ → ℕ → World → Type 0
Counts timeout i c w =
    (w.task_timeout ≡ timeout) × (w.progress.iterations ≡ i) × (w.progress.tool_call_count ≡ c)

abbrev pub Live : ℕ → Task → Option ℕ → ℕ → ℕ → World → Type 0
Live id t timeout i c w = Counts timeout i c w × Row id t w.session

pub Live-in_session :
    {A : Type 0} (Q : A → Type 0) (id : ℕ) (t t' : Task) (timeout : Option ℕ) (i c : ℕ)
    (m : Action Session A)
    → Triple (Row id t) m (λ a s. Q a × Row id t' s) Never
    → Triple (Live id t timeout i c) (in_session m) (λ a w. Q a × Live id t' timeout i c w) Never
Live-in_session Q id t t' timeout i c m h =
    Triple-weaken _ (framed (Counts timeout i c) m (λ w s k. k) h) (λ w k. k)
      (λ a w k. (k.1.0, (k.0, k.1.1))) (λ e w k. k)

pub start_agent_run-Row :
    (id : ℕ) (t : Task) (name : String)
    → Triple (Row id t) (start_agent_run id name) (λ _ s. Unit {0} × Row id t s) Never
unfolding start_agent_run put_run ◌>>=◌
start_agent_run-Row id t name = record { at = λ s h. (tt, h) }

pub finish_agent_run-Row :
    (id run : ℕ) (t : Task) (status : RunStatus)
    → Triple (Row id t) (finish_agent_run run status) (λ _ s. Unit {0} × Row id t s) Never
unfolding finish_agent_run put_run ◌>>=◌
finish_agent_run-Row id run t status = record {
  at = λ s h. elim (Option-cases (lookup run s.now.agent_runs)) [
    | inl missing ↦ rw missing (tt, h)
    | inr (row, found) ↦ rw found (tt, h)
  ];
}

module _ (env : Env) (timeout : Option ℕ) (plan : Plan) (smooth : IsSmooth env timeout plan)
    (id : ℕ) (t : Task) where
  check_limits-Live :
      (i c : ℕ)
      → i < env.limits.max_iterations
      → c < env.limits.max_tool_calls
      → Triple (Live id t timeout i c) (check_limits env) (λ _. Live id t timeout i c) Never
  check_limits-Live i c few below = record {
    at = λ w h.
        let within : IsWithin env w = record {
          not_cancelled = smooth.not_cancelled w.checks;
          in_time = rw h.0.0 (smooth.in_time w.checks);
          iterations = omega (arith, few, h.0.1);
          tool_calls = omega (arith, below, h.0.2);
        } in
        rw (check_limits_effect env w) (elim (check_limits_exact env w) [
          | inl (done, _) ↦ rw done h
          | inr (inl (_, gone)) ↦ absurd (ground (arith, gone, smooth.not_cancelled w.checks))
          | inr (inr (_, _, late)) ↦ absurd (late within)
        ]);
  }

  invoke-Live :
      (i c : ℕ) (step : PlanStep)
      → Triple
          (Live id t timeout i c)
          (invoke env step)
          (λ r w. (r ≡ answers) × Live id t timeout i c w)
          Never
  unfolding invoke ◌>>=◌
  invoke-Live i c step = record { at = λ w h. (smooth.answers_all w.calls step, h) }

  invoke_subgraph-Live :
      (i c : ℕ) (step : PlanStep)
      → Triple
          (Live id t timeout i c)
          (invoke_subgraph env id step)
          (λ r w. (r.success ≡ true) × Live id t timeout i c w)
          Never
  unfolding invoke_subgraph
  invoke_subgraph-Live i c step =
      Triple-if (env.has_graph step.agent) _ _
        (λ _.
          Triple-seq (Live-in_session (λ _. Unit) id t t timeout i c _ (start_agent_run-Row id t _))
            λ run.
              Triple-seq
                (Triple-weaken _ (invoke-Live i c step) (λ w h. h.1) (λ _ w h. h) (λ _ w h. h))
                λ reply. Triple-given _ λ w (same, _).
                  Triple-seq
                    (Triple-weaken _
                      (Live-in_session (λ _. Unit) id t t timeout i c _
                        (finish_agent_run-Row id run t _))
                      (λ v h. h.1) (λ _ v h. h) (λ _ v h. h))
                    λ _. Triple-pure _ (λ v h. (rw same refl, h.1)))
        (λ missing. absurd (ground (arith, missing, smooth.has_graph step)))

  proceed-Live :
      (i c : ℕ) (good : Bool) (action : RecoveryAction) (result : AgentResult)
      (again : Action World AgentResult)
      → good ≡ true
      → Triple
          (Live id t timeout i c)
          (proceed good action result again)
          (λ r w. (r ≡ result) × Live id t timeout i c w)
          Never
  proceed-Live i c true action result again e = Triple-pure result (λ w h. (refl, h))
  proceed-Live i c false action result again e = absurd (ground (arith, e))

  run_step-Live :
      (i c : ℕ) (step : PlanStep)
      → i < env.limits.max_iterations
      → c < env.limits.max_tool_calls
      → Triple
          (Live id t timeout i c)
          (run_step_with_recovery env id step)
          (λ r w. Live id t timeout i (suc c) w)
          Never
  unfolding run_step_with_recovery attempt set_progress
  run_step-Live i c step few below = Triple-seq (check_limits-Live i c few below) λ _.
      Triple-seq (invoke_subgraph-Live i c step) λ result. Triple-given _ λ w (good, _).
        Triple-seq {R = λ _. Live id t timeout i (suc c)}
          (record { at = λ v (_, ((a, b, d), row)). ((a, b, omega (arith, d)), row) })
          λ _.
            Triple-weaken _ (proceed-Live i (suc c) result.success _ result _ good) (λ v h. h)
              (λ _ v h. h.1) (λ _ v h. h)

  pub execute_steps-Live :
      (approved : List String) (index k : ℕ) (steps : List PlanStep)
      → k + length steps ≤ env.limits.max_iterations
      → k + length steps ≤ env.limits.max_tool_calls
      → All (λ step. step.requires_approval ≡ false) steps
      → Triple
          (Live id t timeout k k)
          (execute_steps env id approved index steps)
          (λ _. Live id t timeout (k + length steps) (k + length steps))
          Never
  unfolding execute_steps gate set_progress
  execute_steps-Live approved index k [] few below free =
      Triple-pure tt (λ w ((a, b, d), row). ((a, omega (arith, b), omega (arith, d)), row))
  execute_steps-Live approved index k (step ∷ steps) few below (open_, free) =
      Triple-seq {R = λ _. Live id t timeout k k} (record { at = λ v h. h })
        λ _. Triple-seq (check_limits-Live k k (omega (arith, few)) (omega (arith, below))) λ _.
          Triple-seq {R = λ _. Live id t timeout k k} (rw open_ (Triple-pure tt (λ w h. h))) λ _.
            Triple-seq (run_step-Live k k step (omega (arith, few)) (omega (arith, below)))
              λ result.
                Triple-seq {R = λ _. Live id t timeout (suc k) (suc k)}
                  (record { at = λ v ((a, b, d), row). ((a, omega (arith, b), d), row) })
                  λ _.
                    Triple-weaken _
                      (execute_steps-Live approved (suc index) (suc k) steps (omega (arith, few))
                        (omega (arith, below)) free)
                      (λ v h. h)
                      (λ _ v ((a, b, d), row). ((a, omega (arith, b), omega (arith, d)), row))
                      (λ _ v h. h)
