-- ===== src/Agent/Orchestrator/Run.antt =====
-- `Orchestrator.run` of app/agents/orchestrator.py, with `_plan_for`, `_approved_actions_for`, the
-- browser session of a run, and what a run stores in its task.
pub mod Moves
pub mod Gate
pub mod Endings
pub mod Outcome
pub mod Approved
pub mod Smooth
pub mod Rows
pub mod Completes
mod Tests
use agent_operator.Errors.{Error, approval_required_error, timeout_error}
use agent_operator.Prelude.{
  ℕ, ◌==◌, Bool, true, false, not, ◌&&◌, ◌||◌, Option, none, some, List, [], ◌∷◌, String,
  if◌then◌else◌, any, Table, lookup, Result, ok, err, Action, pure, raise, lift, gets, modify,
  ◌>>=◌, ◌>>◌, catch, finally,
}
use agent_operator.State.{
  TaskState, created, validating, planning, executing, verifying, completed, failed, timed_out,
  waiting_for_approval, can_transition, same_state,
}
use agent_operator.Store.{
  PlanStep, Plan, Summary, Task, Approval, ApprovalStatus, RunStatus, success, Session, commit,
  put_task,
}
use agent_operator.Service.{get_task, transition_task}
use agent_operator.Agent.Planner.{decide_plan}
use agent_operator.Agent.Orchestrator.World.{
  Env, OrchestratorState, initial_progress, World, in_session, set_progress, is_browser,
  start_agent_run, finish_agent_run,
}
use agent_operator.Agent.Orchestrator.Walk.{walk_to}
use agent_operator.Agent.Orchestrator.Steps.{execute_steps}

abbrev pub is_approved : ApprovalStatus → Bool
is_approved ApprovalStatus.approved = true
is_approved _ = false

-- `_approved_actions_for`.
unfoldable pub approved_actions : ℕ → Table Approval → List String
approved_actions task_id [] = []
approved_actions task_id ((_, row) ∷ rows) =
    let rest = approved_actions task_id rows in
    if row.task_id == task_id && is_approved row.status then row.action ∷ rest else rest

-- `_persist_result`, over the JSON object that the task has already.
unfoldable pub persist_result : ℕ → OrchestratorState → Action Session (Unit {0})
persist_result id progress = do
  row ← gets (λ s. lookup id s.now.tasks)
  elim row [
    | none ↦ pure tt
    | some task ↦ (do
      put_task id (record task {
        summary = some (record {
          iterations = progress.iterations;
          tool_calls = progress.tool_call_count;
          steps = progress.step_outputs;
        });
      })
      commit)
  ]

-- `_persist_error`.
unfoldable pub persist_error : ℕ → Error → Action Session (Unit {0})
persist_error id error = do
  row ← gets (λ s. lookup id s.now.tasks)
  elim row [
    | none ↦ pure tt
    | some task ↦ (do put_task id (record task { error = some error }); commit)
  ]

-- The refreshed row gets the plan, and that is committed.
unfoldable pub store_plan : ℕ → Plan → Action Session Plan
store_plan id plan = do
  task ← get_task id
  put_task id (record task { plan = some plan })
  commit
  pure plan

-- The first `except` clause of `run`.
unfoldable pub pause : ℕ → Action Session (Unit {0})
pause id = do
  task ← get_task id
  (if can_transition task.state waiting_for_approval
      then (do _ ← transition_task id waiting_for_approval; pure tt)
      else pure tt)

unfoldable pub end_with : ℕ → TaskState → Error → Action Session (Unit {0})
end_with id state error = do _ ← transition_task id state; persist_error id error

-- The three `except` clauses of `run`.
unfoldable pub handle_error : ℕ → Error → Action World (Unit {0})
handle_error id approval_required_error = in_session (pause id)
handle_error id timeout_error = in_session (end_with id timed_out timeout_error)
handle_error id error = in_session (end_with id failed error)

-- The first part of `run`: a new task is moved on to PLANNING.
unfoldable pub start_planning : ℕ → Action Session Task
start_planning id = do
  task ← get_task id
  (if same_state task.state created || same_state task.state validating
      then (do walk_to id planning; get_task id)
      else pure task)

module _ (env : Env) where
  -- `_plan_for`. The plan of an earlier run is used again.
  unfoldable pub make_plan : ℕ → Task → Action Session Plan
  make_plan id task = do
    run ← start_agent_run id "planner"
    plan ←
        catch (lift (decide_plan env.planner task.instruction))
          (λ e. finish_agent_run run RunStatus.failed >> raise e)
    finish_agent_run run success
    store_plan id plan

  unfoldable pub plan_for : ℕ → Task → Action Session Plan
  plan_for id task = elim task.plan [ none ↦ make_plan id task | some plan ↦ pure plan ]

  -- `_open_browser_session_if_needed`.
  unfoldable pub open_browser : Plan → Action World (Option ℕ)
  open_browser plan =
      if env.has_browser && any (λ step. is_browser step.agent) plan
      then (do
        id ← lift env.browser_opens
        modify (λ w. record w { browsers = id ∷ w.browsers })
        pure (some id))
      else pure none

  -- `_close_browser_session`. The manager is stopped too, which closes every session it has.
  unfoldable pub close_browser : Option ℕ → Action World (Unit {0})
  close_browser none = pure tt
  close_browser (some id) = do lift env.browser_closes; modify (λ w. record w { browsers = [] })

  -- The work of a run between opening and closing the browser.
  unfoldable pub work : ℕ → List String → Plan → Action World (Unit {0})
  work id approved plan = do
    in_session (walk_to id executing)
    execute_steps env id approved 0 plan
    in_session (walk_to id verifying)
    in_session (walk_to id completed)
    progress ← gets (λ w. w.progress)
    in_session (persist_result id progress)

  unfoldable pub body : ℕ → List String → Plan → Action World (Unit {0})
  body id approved plan = do
    session_id ← open_browser plan
    finally (work id approved plan) (close_browser session_id)

  -- `run`. The state that it returns is left in `progress`.
  unfoldable pub run : ℕ → Action World (Unit {0})
  run id = do
    first ← in_session (get_task id)
    modify (λ w. record w { task_timeout = first.timeout_seconds; progress = initial_progress })
    task ← in_session (start_planning id)
    plan ← in_session (plan_for id task)
    set_progress (λ p. record p { plan = some plan })
    approved ← gets (λ w. approved_actions id w.session.now.approvals)
    catch (body id approved plan) (handle_error id)
