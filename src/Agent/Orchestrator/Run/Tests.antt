-- ===== src/Agent/Orchestrator/Run/Tests.antt =====
-- A run of a plan of two steps, one of which has an approval, and the theorems about runs at it.
use agent_operator.Errors.{Error, cancellation_error, timeout_error}
use agent_operator.Prelude.{
  arith, ◌≡◌, refl, true, false, none, some, [], ◌∷◌, All, ok, err, ◌↔◌, ◌⊎◌, contains, lookup,
  insert, new_key, ◌>>=◌, catch, finally,
}
use agent_operator.Prelude.Triple.{Ends}
use agent_operator.Policy.{high}
use agent_operator.State.{created, executing, completed, can_transition, transition}
use agent_operator.Store.{
  research, social, PlanStep, Plan, Task, Approval, ApprovalStatus, Database, commit, put_task,
  put_run, state_of,
}
use agent_operator.Service.{get_task, transition_task}
use agent_operator.Service.Follows.{HasMoved}
use agent_operator.Text.{is_empty, strip, lstrip, rstrip, is_space}
use agent_operator.Agent.Recovery.{default_limits, classify, decide}
use agent_operator.Agent.Planner.{structured, decide_plan, fallback_plan}
use agent_operator.Agent.Orchestrator.World.{
  answers, Env, initial_progress, World, in_session, set_progress, start_agent_run,
  finish_agent_run,
}
use agent_operator.Agent.Orchestrator.Walk.Laws.{walk_to_forward}
use agent_operator.Agent.Orchestrator.Steps.Limits.{IsWithin, check_limits_exact}
use agent_operator.Agent.Orchestrator.Steps.Retries.{IsStop, HasRun, run_step_with_recovery-once}
use agent_operator.Agent.Orchestrator.Steps.Outcome.{HasDone, IsExcused, execute_steps-Ends}
use agent_operator.Agent.Orchestrator.Run.Approved.{HasApproval, contains-approved_actions_iff}
use agent_operator.Agent.Orchestrator.Walk.{route, walk, walk_to}
use agent_operator.Agent.Orchestrator.Steps.{
  effective_timeout, check_limits, invoke, invoke_subgraph, attempt, run_step_with_recovery, gate,
  execute_steps,
}
use agent_operator.Agent.Orchestrator.Steps.Gate.{IsCleared}
use agent_operator.Agent.Orchestrator.Run.{
  approved_actions, persist_result, store_plan, start_planning, make_plan, plan_for, open_browser,
  close_browser, work, body, run,
}
use agent_operator.Agent.Orchestrator.Run.Moves.{run-HasMoved}
use agent_operator.Agent.Orchestrator.Run.Gate.{run-IsCleared}
use agent_operator.Agent.Orchestrator.Run.Endings.{IsEnded}
use agent_operator.Agent.Orchestrator.Run.Smooth.{IsSmooth}
use agent_operator.Agent.Orchestrator.Run.Completes.{run_completes}
use agent_operator.Agent.Orchestrator.Run.Outcome.{HasBrowserErrors, run-IsEnded}

abbrev two_steps : Plan
two_steps =
    record { name = "find"; agent = research; description = 97 ∷ []; requires_approval = false }
    ∷ record { name = "post"; agent = social; description = 98 ∷ []; requires_approval = true }
    ∷ []

abbrev demo_env : Env
demo_env = record {
  limits = default_limits;
  has_graph = λ _. true;
  reply = λ _ _. answers;
  elapsed = λ _. 1;
  is_cancelled = λ _. false;
  planner = λ _. structured two_steps;
  has_browser = false;
  browser_opens = ok 0;
  browser_closes = ok tt;
}

abbrev demo_task : Task
demo_task = record {
  instruction = 97 ∷ [];
  state = created;
  user_id = none;
  plan = none;
  summary = none;
  error = none;
  timeout_seconds = none;
}

abbrev demo_approval : Approval
demo_approval = record {
  task_id = 0;
  action = "post";
  target = "social";
  risk_level = high;
  reason = none;
  status = ApprovalStatus.approved;
  decided_by = some "user";
}

abbrev demo_database : Database
demo_database = record {
  tasks = (0, demo_task) ∷ [];
  approvals = (0, demo_approval) ∷ [];
  agent_runs = [];
}

abbrev demo_world : World
demo_world = record {
  session = record { now = demo_database; saved = demo_database };
  progress = initial_progress;
  task_timeout = none;
  checks = 0;
  calls = 0;
  invoked = [];
  browsers = [];
}

-- Both steps are run, and the completed task is committed.
demo_run :
    ((run demo_env 0 demo_world).0 ≡ ok tt)
    × (state_of 0 (run demo_env 0 demo_world).1.session.saved ≡ some completed)
unfolding run ◌>>=◌ in_session get_task lookup insert new_key start_planning walk_to route walk
    transition_task transition can_transition put_task put_run commit plan_for make_plan
    start_agent_run finish_agent_run decide_plan fallback_plan store_plan set_progress
    approved_actions catch finally body open_browser close_browser work execute_steps check_limits
    effective_timeout gate run_step_with_recovery attempt invoke_subgraph invoke decide classify
    persist_result is_empty strip lstrip rstrip is_space
demo_run = (refl, refl)

no_browser : HasBrowserErrors demo_env
no_browser = record {
  opening = λ e h. absurd (ok-is_not_err h);
  closing = λ e h. absurd (ok-is_not_err h);
}
  where
    ok-is_not_err : {A : Type 0} {a : A} {e : Error} → ¬ (ok a ≡ err e)
    ok-is_not_err h = cc h

run-IsEnded_example : IsEnded 0 (run demo_env 0 demo_world).1
run-IsEnded_example = run-IsEnded demo_env 0 demo_world no_browser refl demo_run.0

run-IsCleared_example :
    All
      (IsCleared (approved_actions 0 demo_database.approvals))
      (run demo_env 0 demo_world).1.invoked
run-IsCleared_example = run-IsCleared demo_env 0 demo_world refl

run-HasMoved_example :
    let s' = (run demo_env 0 demo_world).1.session in
    HasMoved demo_task (lookup 0 s'.now.tasks) × HasMoved demo_task (lookup 0 s'.saved.tasks)
unfolding lookup
run-HasMoved_example = run-HasMoved demo_env 0 0 demo_world demo_task refl refl

contains-approved_actions_iff_example :
    (contains (approved_actions 0 demo_database.approvals) "post" ≡ true)
    ↔ HasApproval 0 demo_database.approvals "post"
contains-approved_actions_iff_example =
    contains-approved_actions_iff 0 demo_database.approvals "post"

execute_steps-Ends_example :
    let (r, w') = execute_steps demo_env 0 ("post" ∷ []) 0 two_steps demo_world in
    Ends (λ _. HasDone default_limits two_steps [] initial_progress) (IsExcused 0) r w'
execute_steps-Ends_example = execute_steps-Ends demo_env 0 ("post" ∷ []) two_steps demo_world

abbrev first_step : PlanStep
first_step = record {
  name = "find";
  agent = research;
  description = 97 ∷ [];
  requires_approval = false;
}

run_step_with_recovery-once_example :
    let (r, w') = run_step_with_recovery demo_env 0 first_step demo_world in
    Ends (HasRun demo_env first_step [] initial_progress) (λ e _. IsStop e) r w'
run_step_with_recovery-once_example = run_step_with_recovery-once demo_env 0 first_step demo_world

check_limits_exact_example :
    (((check_limits demo_env demo_world).0 ≡ ok tt) × IsWithin demo_env demo_world)
    ⊎ (((check_limits demo_env demo_world).0 ≡ err cancellation_error) × (false ≡ true))
    ⊎ (((check_limits demo_env demo_world).0 ≡ err timeout_error)
        × (false ≡ false)
        × ¬ IsWithin demo_env demo_world)
check_limits_exact_example = check_limits_exact demo_env demo_world

walk_to_forward_example :
    let (r, s') = walk_to 0 executing demo_world.session in
    (r ≡ ok tt) × (lookup 0 s'.now.tasks ≡ some (record demo_task { state = executing }))
unfolding lookup
walk_to_forward_example = walk_to_forward 0 executing demo_task demo_world.session refl refl refl

abbrev one_step : Plan
one_step = first_step ∷ []

abbrev smooth_env : Env
smooth_env = record demo_env { planner = λ _. structured one_step }

IsSmooth-run : IsSmooth smooth_env none one_step
unfolding effective_timeout
IsSmooth-run = record {
  has_graph = λ step. refl;
  answers_all = λ n step. refl;
  not_cancelled = λ n. refl;
  in_time = λ n. omega arith;
  iterations = omega arith;
  tool_calls = omega arith;
  free = (refl, tt);
  browser = 0;
  opens = refl;
  closes = refl;
}

plan_made : decide_plan smooth_env.planner (97 ∷ []) ≡ ok one_step
unfolding decide_plan strip lstrip rstrip is_space is_empty
plan_made = refl

run_completes_example :
    let (r, w') = run smooth_env 0 demo_world in
    (r ≡ ok tt)
    × (state_of 0 w'.session.now ≡ some completed)
    × (state_of 0 w'.session.saved ≡ some completed)
unfolding lookup
run_completes_example =
    run_completes smooth_env 0 (97 ∷ []) none none one_step demo_world refl plan_made IsSmooth-run
