-- ===== src/Worker.antt =====
-- app/workers/task_worker.py: the worker that polls for new tasks and runs a bounded number of them.
-- The asyncio loop is a sequence of events, since a poll and the end of a run do not interleave on
-- the worker's own fields.
pub mod Laws
pub mod Runs
mod Tests
use agent_operator.Prelude.{
  ℕ, Bool, true, false, List, [], ◌∷◌, ◌++◌, Table, length, take, leb, Action, catch, pure, ok,
  ◌==◌, if◌then◌else◌,
}
use agent_operator.State.{TaskState, created, same_state}
use agent_operator.Store.{Task, Database}
use agent_operator.Agent.Orchestrator.World.{Env, World}
use agent_operator.Agent.Orchestrator.Run.{run}

-- The worker, with the keys of `_active_tasks` in the order in which they came.
pub record TaskWorker : Type 0 where
  pub max_concurrent_tasks : ℕ
  pub running : Bool
  pub active_tasks : List ℕ

-- `task_id in self._active_tasks`.
unfoldable pub is_active : ℕ → List ℕ → Bool
is_active id [] = false
is_active id (other ∷ active) = if other == id then true else is_active id active

-- The tasks that are CREATED, by `created_at`.
unfoldable pub created_tasks : Table Task → List ℕ
created_tasks [] = []
created_tasks ((id, task) ∷ rows) =
    let rest = created_tasks rows in if same_state task.state created then id ∷ rest else rest

-- The loop over the fetched tasks.
unfoldable pub claim_tasks : ℕ → List ℕ → List ℕ → List ℕ
claim_tasks limit [] active = active
claim_tasks limit (id ∷ ids) active =
    if is_active id active
    then claim_tasks limit ids active
    else (if leb limit (length active) then active else claim_tasks limit ids (active ++ id ∷ []))

unfoldable pub poll_once : Database → TaskWorker → TaskWorker
poll_once db worker =
    let limit = worker.max_concurrent_tasks in
    record worker {
      active_tasks = claim_tasks limit (take limit (created_tasks db.tasks)) worker.active_tasks;
    }

-- `self._active_tasks.pop(task_id, None)`.
unfoldable pub remove_active : ℕ → List ℕ → List ℕ
remove_active id [] = []
remove_active id (other ∷ active) =
    let rest = remove_active id active in if other == id then rest else other ∷ rest

-- What happens to a worker: the beginning and a round of `start`, the end of `_run_task`, and `stop`.
pub data Event : Type 0 where
  started : Event
  polled : Database → Event
  finished : ℕ → Event
  stopped : Event

unfoldable pub react : Event → TaskWorker → TaskWorker
react started worker = record worker { running = true }
react (polled db) worker = if worker.running then poll_once db worker else worker
react (finished id) worker = record worker { active_tasks = remove_active id worker.active_tasks }
react stopped worker = record worker { running = false }

unfoldable pub react_all : List Event → TaskWorker → TaskWorker
react_all [] worker = worker
react_all (event ∷ events) worker = react_all events (react event worker)

-- The orchestrator of `_run_task`: it gets no graphs, no set of cancelled tasks and no browser,
-- so that the results of opening and closing one are never asked for.
unfoldable pub worker_env : Env → Env
worker_env env = record env {
  has_graph = λ _. false;
  has_browser = false;
  browser_opens = ok 0;
  browser_closes = ok tt;
  is_cancelled = λ _. false;
}

-- `_run_task`, whose exceptions are only logged. That the task is no longer active is an event.
unfoldable pub run_task : Env → ℕ → Action World (Unit {0})
run_task env id = catch (run (worker_env env) id) (λ e. pure tt)
