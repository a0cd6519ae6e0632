-- ===== src/Worker/Tests.antt =====
-- Runs of the worker over three tasks, two of which are new.
use agent_operator.Prelude.{◌≡◌, refl, true, none, [], ◌∷◌, List, ◌++◌, ◌-◌, take, arith}
use agent_operator.State.{created, planning}
use agent_operator.Store.{Task, Database}
use agent_operator.Worker.{
  TaskWorker, Event, started, polled, finished, stopped, created_tasks, poll_once, react_all, react,
  claim_tasks, is_active, remove_active,
}
use agent_operator.Worker.Laws.{IsSound, idle, react_all-IsSound, poll_once_exact}

abbrev new_task : Task
new_task = record {
  instruction = 97 ∷ [];
  state = created;
  user_id = none;
  plan = none;
  summary = none;
  error = none;
  timeout_seconds = none;
}

abbrev old_task : Task
old_task = record new_task { state = planning }

abbrev three_tasks : Database
three_tasks = record {
  tasks = (0, new_task) ∷ (1, old_task) ∷ (2, new_task) ∷ [];
  approvals = [];
  agent_runs = [];
}

abbrev small_worker : TaskWorker
small_worker = record { max_concurrent_tasks = 2; running = true; active_tasks = 0 ∷ [] }

abbrev events : List Event
events = started ∷ polled three_tasks ∷ finished 0 ∷ polled three_tasks ∷ stopped ∷ []

after_events : (react_all events small_worker).active_tasks ≡ 2 ∷ 0 ∷ []
unfolding react_all react poll_once claim_tasks is_active created_tasks remove_active
after_events = refl

small_worker-IsSound : IsSound small_worker
unfolding is_active
small_worker-IsSound = record { unique = (refl, tt); bound = omega arith }

react_all-IsSound_example : IsSound (react_all events small_worker)
react_all-IsSound_example = react_all-IsSound events small_worker small_worker-IsSound

poll_once_exact_example :
    (poll_once three_tasks small_worker).active_tasks
    ≡ (0 ∷ []) ++ take (2 - 1) (idle (0 ∷ []) (take 2 (created_tasks three_tasks.tasks)))
unfolding is_active
poll_once_exact_example = poll_once_exact three_tasks small_worker (refl, (refl, (refl, tt)))
