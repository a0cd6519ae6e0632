-- ===== src/Worker/Runs.antt =====
-- What the worker does to a task: its orchestrator has no graphs, so no step is ever carried out.
mod Tests
use agent_operator.Errors.{Error, approval_required_error, timeout_error}
use agent_operator.Prelude.{
  ℕ, zero, suc, ◌+◌, ◌≡◌, refl, sym, ◌∙◌, ◌⊎◌, inl, inr, Bool, true, false, Option, none, some,
  List, [], ◌∷◌, String, Action, ok, err, modify, finally, catch, length, ap, pure, ◌>>=◌, arith,
}
use agent_operator.Prelude.Keeps.{Keeps, Keeps-seq, keeps_rules}
use agent_operator.State.{waiting_for_approval, timed_out, failed}
use agent_operator.Store.{PlanStep, Plan}
use agent_operator.Agent.Recovery.{RecoveryAction, retry, escalate, fail}
use agent_operator.Agent.Orchestrator.World.{Env, World, AgentResult}
use agent_operator.Agent.Orchestrator.Steps.{
  proceed, invoke_subgraph, attempt, run_step_with_recovery, request_approval, gate, execute_steps,
}
use agent_operator.Agent.Orchestrator.Steps.Quiet.{
  Quiet, Quiet-preorder, in_session-Quiet, set_progress-Quiet, check_limits-Quiet,
}
use agent_operator.Agent.Orchestrator.Steps.Outcome.{IsIn, onto}
use agent_operator.Agent.Orchestrator.Run.{
  handle_error, open_browser, close_browser, work, body, run,
}
use agent_operator.Agent.Orchestrator.Run.Endings.{IsEnded, IsFinished}
use agent_operator.Agent.Orchestrator.Run.Outcome.{HasBrowserErrors, run-IsEnded}
use agent_operator.Worker.{worker_env, run_task}

-- The plan of a run was empty, or its task waits for an approval, timed out or failed.
abbrev pub IsUnworked : ℕ → World → Type 0
IsUnworked id w =
    (w.progress.plan ≡ some [])
    ⊎ IsIn id waiting_for_approval w.session
    ⊎ IsIn id timed_out w.session
    ⊎ IsIn id failed w.session

ruleset quiet_rules = (keeps_rules, Quiet-preorder, in_session-Quiet, set_progress-Quiet)

modify-Quiet :
    (f : World → World)
    → ((w : World) → ((f w).invoked ≡ w.invoked) × ((f w).browsers ≡ w.browsers))
    → Keeps Quiet (modify f)
unfolding modify
modify-Quiet f e = record { at = λ w. record { invoked = (e w).0; browsers = (e w).1 } }

handle_error-Quiet : (id : ℕ) (e : Error) → Keeps Quiet (handle_error id e)
unfolding handle_error
handle_error-Quiet id approval_required_error = in_session-Quiet _
handle_error-Quiet id timeout_error = in_session-Quiet _
handle_error-Quiet id e = in_session-Quiet _

proceed-Quiet :
    (b : Bool) (action : RecoveryAction) (result : AgentResult) (again : Action World AgentResult)
    → Keeps Quiet again
    → Keeps Quiet (proceed b action result again)
proceed-Quiet true action result again k = search quiet_rules
proceed-Quiet false retry result again k = k
proceed-Quiet false escalate result again k = search quiet_rules
proceed-Quiet false fail result again k = search quiet_rules

length-onto : (steps xs : List PlanStep) → length (onto steps xs) ≡ length steps + length xs
length-onto [] xs = omega arith
length-onto (step ∷ steps) xs = omega (arith, length-onto steps (step ∷ xs))

onto_empty : (plan : Plan) → [] ≡ onto plan [] → plan ≡ []
onto_empty [] h = refl
onto_empty (step ∷ steps) h = absurd (omega (arith, ap length h, length-onto steps (step ∷ [])))

no_browser : (env : Env) → HasBrowserErrors (worker_env env)
unfolding worker_env
no_browser env = record {
  opening = λ e h. absurd (ground (arith, h));
  closing = λ e h. absurd (ground (arith, h));
}

module _ (env : Env) where
  abbrev Worker : Env
  Worker = worker_env env

  invoke_subgraph-Quiet : (id : ℕ) (step : PlanStep) → Keeps Quiet (invoke_subgraph Worker id step)
  unfolding invoke_subgraph worker_env
  invoke_subgraph-Quiet id step = search quiet_rules

  attempt-Quiet :
      (fuel id : ℕ) (step : PlanStep) (n : ℕ) → Keeps Quiet (attempt Worker fuel id step n)
  unfolding attempt
  attempt-Quiet zero id step n = search quiet_rules
  attempt-Quiet (suc fuel) id step n = Keeps-seq Quiet-preorder (check_limits-Quiet Worker) λ _.
      Keeps-seq Quiet-preorder (invoke_subgraph-Quiet id step) λ result.
        Keeps-seq Quiet-preorder (set_progress-Quiet _)
          λ _. proceed-Quiet result.success _ result _ (attempt-Quiet fuel id step (n + 1))

  gate-Quiet :
      (id : ℕ) (approved : List String) (step : PlanStep)
      → Keeps Quiet (gate Worker id approved step)
  unfolding gate request_approval
  gate-Quiet id approved step = search quiet_rules

  execute_steps-Quiet :
      (id : ℕ) (approved : List String) (index : ℕ) (steps : List PlanStep)
      → Keeps Quiet (execute_steps Worker id approved index steps)
  unfolding execute_steps run_step_with_recovery
  execute_steps-Quiet id approved index [] = search quiet_rules
  execute_steps-Quiet id approved index (step ∷ steps) =
      Keeps-seq Quiet-preorder (set_progress-Quiet _) λ _.
        Keeps-seq Quiet-preorder (check_limits-Quiet Worker) λ _.
          Keeps-seq Quiet-preorder (gate-Quiet id approved step) λ _.
            Keeps-seq Quiet-preorder (attempt-Quiet _ id step 0) λ _.
              Keeps-seq Quiet-preorder (set_progress-Quiet _)
                λ _. execute_steps-Quiet id approved (suc index) steps

  work-Quiet :
      (id : ℕ) (approved : List String) (plan : Plan) → Keeps Quiet (work Worker id approved plan)
  unfolding work
  work-Quiet id approved plan = search (quiet_rules, execute_steps-Quiet) depth 14

  closed-Quiet :
      (id : ℕ) (approved : List String) (plan : Plan)
      → Keeps Quiet (finally (work Worker id approved plan) (close_browser Worker none))
  unfolding close_browser
  closed-Quiet id approved plan = search (quiet_rules, work-Quiet)

  body-Quiet :
      (id : ℕ) (approved : List String) (plan : Plan) → Keeps Quiet (body Worker id approved plan)
  unfolding body open_browser worker_env pure ◌>>=◌
  body-Quiet id approved plan = closed-Quiet id approved plan

  -- The worker's run of a task invokes no graph and opens no browser.
  run-Quiet : (id : ℕ) → Keeps Quiet (run Worker id)
  unfolding run
  run-Quiet id = search (quiet_rules, modify-Quiet, body-Quiet, handle_error-Quiet) depth 16

  ended : (id : ℕ) (w : World) → w.invoked ≡ [] → IsEnded id w → IsUnworked id w
  ended id w none_yet (inl f) =
      inl (rw f.known (rw (onto_empty f.plan (sym none_yet ∙ f.invoked)) refl))
  ended id w none_yet (inr r) = inr r

-- If nothing was invoked before, then a run of the worker that returns has left its task waiting for
-- an approval, timed out or failed, except where the plan of the task is empty.
pub run_task-IsUnworked :
    (env : Env) (id : ℕ) (w : World)
    → w.invoked ≡ []
    → (run (worker_env env) id w).0 ≡ ok tt
    → IsUnworked id (run_task env id w).1
unfolding run_task catch
run_task-IsUnworked env id w none_yet returned = rw returned (
    ended env id _ (((run-Quiet env id).at w).invoked ∙ none_yet)
      (run-IsEnded (worker_env env) id w (no_browser env) none_yet returned))
