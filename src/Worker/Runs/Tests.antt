-- ===== src/Worker/Runs/Tests.antt =====
-- A run of the worker on a task with a plan of one step, which fails.
use agent_operator.Prelude.{
  ◌≡◌, refl, true, false, none, some, [], ◌∷◌, ok, lookup, insert, new_key, ◌>>=◌, catch, finally,
}
use agent_operator.State.{created, can_transition, transition}
use agent_operator.Store.{research, Plan, Task, Database, commit, put_task, put_run, state_of}
use agent_operator.Service.{get_task, transition_task}
use agent_operator.Text.{is_empty, strip, lstrip, rstrip, is_space}
use agent_operator.Agent.Recovery.{default_limits, classify, decide}
use agent_operator.Agent.Planner.{structured, decide_plan, fallback_plan}
use agent_operator.Agent.Orchestrator.World.{
  answers, Env, initial_progress, World, in_session, set_progress, start_agent_run,
  finish_agent_run,
}
use agent_operator.Agent.Orchestrator.Walk.{route, walk, walk_to}
use agent_operator.Agent.Orchestrator.Steps.{
  effective_timeout, check_limits, invoke, invoke_subgraph, attempt, run_step_with_recovery, gate,
  execute_steps,
}
use agent_operator.Agent.Orchestrator.Run.{
  approved_actions, handle_error, end_with, persist_error, persist_result, store_plan,
  start_planning, make_plan, plan_for, open_browser, close_browser, work, body, run,
}
use agent_operator.State.{failed}
use agent_operator.Worker.{worker_env, run_task}
use agent_operator.Worker.Runs.{IsUnworked, run_task-IsUnworked}

abbrev one_step : Plan
one_step =
    record { name = "find"; agent = research; description = 97 ∷ []; requires_approval = false }
    ∷ []

abbrev host_env : Env
host_env = record {
  limits = default_limits;
  has_graph = λ _. true;
  reply = λ _ _. answers;
  elapsed = λ _. 1;
  is_cancelled = λ _. false;
  planner = λ _. structured one_step;
  has_browser = false;
  browser_opens = ok 0;
  browser_closes = ok tt;
}

abbrev host_task : Task
host_task = record {
  instruction = 97 ∷ [];
  state = created;
  user_id = none;
  plan = none;
  summary = none;
  error = none;
  timeout_seconds = none;
}

abbrev host_database : Database
host_database = record { tasks = (0, host_task) ∷ []; approvals = []; agent_runs = [] }

abbrev host_world : World
host_world = record {
  session = record { now = host_database; saved = host_database };
  progress = initial_progress;
  task_timeout = none;
  checks = 0;
  calls = 0;
  invoked = [];
  browsers = [];
}

host_run :
    ((run (worker_env host_env) 0 host_world).0 ≡ ok tt)
    × (state_of 0 (run (worker_env host_env) 0 host_world).1.session.saved ≡ some failed)
unfolding run ◌>>=◌ in_session get_task lookup insert new_key start_planning walk_to route walk
    transition_task transition can_transition put_task put_run commit plan_for make_plan
    start_agent_run finish_agent_run decide_plan fallback_plan store_plan set_progress
    approved_actions catch finally body open_browser close_browser work execute_steps check_limits
    effective_timeout gate run_step_with_recovery attempt invoke_subgraph invoke decide classify
    persist_result is_empty strip lstrip rstrip is_space worker_env handle_error end_with
    persist_error
host_run = (refl, refl)

run_task-IsUnworked_example : IsUnworked 0 (run_task host_env 0 host_world).1
run_task-IsUnworked_example = run_task-IsUnworked host_env 0 host_world refl host_run.0
