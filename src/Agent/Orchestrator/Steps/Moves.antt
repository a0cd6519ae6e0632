-- ===== src/Agent/Orchestrator/Steps/Moves.antt =====
-- The execution of a plan moves its task only along the diagram.
use agent_operator.Prelude.{
  ℕ, zero, suc, ◌+◌, ◌≡◌, refl, ap, String, Bool, true, false, none, some, List, [], ◌∷◌, Action,
  ◌>>=◌,
}
use agent_operator.Prelude.Keeps.{
  IsPreorder, Keeps, Keeps-pure, Keeps-raise, Keeps-bind, Keeps-seq, Keeps-if, keeps_rules,
}
use agent_operator.Store.{PlanStep, RunStatus, Session}
use agent_operator.Service.Follows.{
  Follows, Follows-preorder, put_run-Follows, create_approval-Follows,
}
use agent_operator.Agent.Recovery.{RecoveryAction, retry, escalate, fail}
use agent_operator.Agent.Orchestrator.World.{
  Env, World, OrchestratorState, AgentResult, in_session, set_progress, start_agent_run,
  finish_agent_run,
}
use agent_operator.Agent.Orchestrator.Steps.{
  proceed, check_limits, invoke, invoke_subgraph, attempt, run_step_with_recovery, request_approval,
  gate, execute_steps,
}
use agent_operator.Agent.Orchestrator.Steps.Limits.{check_limits_effect}

pub record Trails (w w' : World) : Type 0 where
  pub follows : Follows w.session w'.session

pub Trails-preorder : IsPreorder Trails
Trails-preorder = record {
  same = λ w. record { follows = Follows-preorder.same w.session };
  step = λ u v w p q. record {
    follows = Follows-preorder.step u.session v.session w.session p.follows q.follows;
  };
}

pub Trails-same_session : (w w' : World) → w'.session ≡ w.session → Trails w w'
Trails-same_session w w' e = record { follows = rw e (Follows-preorder.same w.session) }

pub in_session-Trails :
    {A : Type 0} (m : Action Session A) → Keeps Follows m → Keeps Trails (in_session m)
unfolding in_session
in_session-Trails m k = record { at = λ w. record { follows = k.at w.session } }

pub set_progress-Trails :
    (f : OrchestratorState → OrchestratorState) → Keeps Trails (set_progress f)
unfolding set_progress
set_progress-Trails f = record { at = λ w. Trails-same_session w _ refl }

pub ruleset trail_rules = (keeps_rules, Trails-preorder, in_session-Trails, set_progress-Trails)

pub start_agent_run-Follows : (id : ℕ) (name : String) → Keeps Follows (start_agent_run id name)
unfolding start_agent_run
start_agent_run-Follows id name = search (keeps_rules, Follows-preorder, put_run-Follows)

pub finish_agent_run-Follows :
    (id : ℕ) (status : RunStatus) → Keeps Follows (finish_agent_run id status)
unfolding finish_agent_run
finish_agent_run-Follows id status =
    Keeps-bind Follows-preorder _ _ (search (keeps_rules, Follows-preorder))
      (elim [ none ↦ search (keeps_rules, Follows-preorder) | some run ↦ put_run-Follows id _ ])

pub ruleset run_rules = (start_agent_run-Follows, finish_agent_run-Follows)

module _ (env : Env) where
  check_limits-Trails : Keeps Trails (check_limits env)
  check_limits-Trails = record {
    at = λ w. Trails-same_session w _ (ap (λ v. v.session) (check_limits_effect env w));
  }

  invoke-Trails : (step : PlanStep) → Keeps Trails (invoke env step)
  unfolding invoke ◌>>=◌
  invoke-Trails step = record { at = λ w. Trails-same_session w _ refl }

  invoke_subgraph-Trails : (id : ℕ) (step : PlanStep) → Keeps Trails (invoke_subgraph env id step)
  unfolding invoke_subgraph
  invoke_subgraph-Trails id step = search (trail_rules, run_rules, invoke-Trails) depth 9

  request_approval-Trails : (id : ℕ) (step : PlanStep) → Keeps Trails (request_approval env id step)
  unfolding request_approval
  request_approval-Trails id step = search (trail_rules, create_approval-Follows)

  proceed-Trails :
      (b : Bool) (action : RecoveryAction) (result : AgentResult) (again : Action World AgentResult)
      → Keeps Trails again
      → Keeps Trails (proceed b action result again)
  proceed-Trails true action result again k = search trail_rules
  proceed-Trails false retry result again k = k
  proceed-Trails false escalate result again k = search trail_rules
  proceed-Trails false fail result again k = search trail_rules

  attempt-Trails :
      (fuel id : ℕ) (step : PlanStep) (n : ℕ) → Keeps Trails (attempt env fuel id step n)
  unfolding attempt
  attempt-Trails zero id step n = search trail_rules
  attempt-Trails (suc fuel) id step n = Keeps-seq Trails-preorder check_limits-Trails λ _.
      Keeps-seq Trails-preorder (invoke_subgraph-Trails id step) λ result.
        Keeps-seq Trails-preorder (set_progress-Trails _)
          λ _. proceed-Trails result.success _ result _ (attempt-Trails fuel id step (n + 1))

  gate-Trails :
      (id : ℕ) (approved : List String) (step : PlanStep) → Keeps Trails (gate env id approved step)
  unfolding gate
  gate-Trails id approved step = search (trail_rules, request_approval-Trails)

  pub execute_steps-Trails :
      (id : ℕ) (approved : List String) (index : ℕ) (steps : List PlanStep)
      → Keeps Trails (execute_steps env id approved index steps)
  unfolding execute_steps run_step_with_recovery
  execute_steps-Trails id approved index [] = search trail_rules
  execute_steps-Trails id approved index (step ∷ steps) =
      Keeps-seq Trails-preorder (set_progress-Trails _) λ _.
        Keeps-seq Trails-preorder check_limits-Trails λ _.
          Keeps-seq Trails-preorder (gate-Trails id approved step) λ _.
            Keeps-seq Trails-preorder (attempt-Trails _ id step 0) λ _.
              Keeps-seq Trails-preorder (set_progress-Trails _)
                λ _. execute_steps-Trails id approved (suc index) steps
