-- ===== src/Agent/Orchestrator/Steps/Gate.antt =====
-- No graph is invoked for a step that needs an approval and has none.
use agent_operator.Prelude.{
  ℕ, zero, suc, ◌+◌, ◌≡◌, ◌⊎◌, String, Bool, true, false, not, ◌&&◌, List, [], ◌∷◌, contains, All,
  arith, Action, ◌>>=◌,
}
use agent_operator.Prelude.Triple.{
  Triple, Triple-pure, Triple-raise, Triple-if, Triple-seq, Triple-given, Triple-weaken,
}
use agent_operator.Store.{PlanStep}
use agent_operator.Agent.Recovery.{RecoveryAction, retry, escalate, fail}
use agent_operator.Agent.Orchestrator.World.{Env, World, AgentResult}
use agent_operator.Agent.Orchestrator.Steps.{
  proceed, invoke, invoke_subgraph, attempt, run_step_with_recovery, request_approval, gate,
  execute_steps,
}
use agent_operator.Agent.Orchestrator.Steps.Quiet.{
  in_session-Quiet, set_progress-Quiet, check_limits-Quiet, Triple-Quiet,
}

-- The step needs no approval, or its name is among the approved actions.
abbrev pub IsCleared : List String → PlanStep → Type 0
IsCleared approved step = (step.requires_approval ≡ false) ⊎ (contains approved step.name ≡ true)

module _ (env : Env) (approved : List String) where
  abbrev pub AllCleared : List PlanStep → Type 0
  AllCleared = All (IsCleared approved)

  abbrev pub Safe : {A : Type 0} → Action World A → Type 0
  Safe m =
      Triple (λ w. AllCleared w.invoked) m (λ _ w. AllCleared w.invoked)
        (λ _ w. AllCleared w.invoked)

  invoke-Safe : (step : PlanStep) → IsCleared approved step → Safe (invoke env step)
  unfolding invoke ◌>>=◌
  invoke-Safe step clear = record { at = λ w h. (clear, h) }

  invoke_subgraph-Safe :
      (id : ℕ) (step : PlanStep) → IsCleared approved step → Safe (invoke_subgraph env id step)
  unfolding invoke_subgraph
  invoke_subgraph-Safe id step clear =
      Triple-if (env.has_graph step.agent) _ _
        (λ _. Triple-seq (Triple-Quiet AllCleared _ (in_session-Quiet _)) λ _.
          Triple-seq (invoke-Safe step clear) λ _.
            Triple-seq (Triple-Quiet AllCleared _ (in_session-Quiet _))
              λ _. Triple-pure _ (λ w h. h))
        (λ _. Triple-pure _ (λ w h. h))

  proceed-Safe :
      (b : Bool) (action : RecoveryAction) (result : AgentResult) (again : Action World AgentResult)
      → Safe again
      → Safe (proceed b action result again)
  proceed-Safe true action result again k = Triple-pure _ (λ w h. h)
  proceed-Safe false retry result again k = k
  proceed-Safe false escalate result again k = Triple-raise _ (λ w h. h)
  proceed-Safe false fail result again k = Triple-raise _ (λ w h. h)

  attempt-Safe :
      (fuel id : ℕ) (step : PlanStep) (n : ℕ)
      → IsCleared approved step
      → Safe (attempt env fuel id step n)
  unfolding attempt
  attempt-Safe zero id step n clear = Triple-raise _ (λ w h. h)
  attempt-Safe (suc fuel) id step n clear =
      Triple-seq (Triple-Quiet AllCleared _ (check_limits-Quiet env)) λ _.
        Triple-seq (invoke_subgraph-Safe id step clear) λ result.
          Triple-seq (Triple-Quiet AllCleared _ (set_progress-Quiet _))
            λ _. proceed-Safe result.success _ result _ (attempt-Safe fuel id step (n + 1) clear)

  -- The gate lets a step pass only if it is cleared.
  gate-IsCleared :
      (id : ℕ) (step : PlanStep)
      → Triple
          (λ w. AllCleared w.invoked)
          (gate env id approved step)
          (λ _ w. IsCleared approved step × AllCleared w.invoked)
          (λ _ w. AllCleared w.invoked)
  unfolding gate request_approval
  gate-IsCleared id step =
      Triple-if (step.requires_approval && not (contains approved step.name)) _ _
        (λ _.
          Triple-seq (Triple-Quiet AllCleared _ (in_session-Quiet _))
            λ _. Triple-raise _ (λ w h. h))
        (λ open_. Triple-pure _ (λ w h. (ground arith, h)))

  pub execute_steps-Safe :
      (id index : ℕ) (steps : List PlanStep) → Safe (execute_steps env id approved index steps)
  unfolding execute_steps run_step_with_recovery
  execute_steps-Safe id index [] = Triple-pure _ (λ w h. h)
  execute_steps-Safe id index (step ∷ steps) =
      Triple-seq (Triple-Quiet AllCleared _ (set_progress-Quiet _)) λ _.
        Triple-seq (Triple-Quiet AllCleared _ (check_limits-Quiet env)) λ _.
          Triple-seq (gate-IsCleared id step) λ _. Triple-given _ λ w p.
            Triple-seq
              (Triple-weaken _ (attempt-Safe _ id step 0 p.0) (λ v q. q.1) (λ _ v q. q)
                (λ _ v q. q))
              λ _.
                Triple-seq (Triple-Quiet AllCleared _ (set_progress-Quiet _))
                  λ _. execute_steps-Safe id (suc index) steps
