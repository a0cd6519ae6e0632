-- ===== src/Agent/Orchestrator/Run/Rows.antt =====
-- What the actions of a run on a session do to the row of its task.
use agent_operator.Prelude.{ℕ, ◌≡◌, refl, true, some, lookup-insert_self, or_raise, ◌>>=◌}
use agent_operator.Prelude.Triple.{Triple}
use agent_operator.State.{TaskState, completed}
use agent_operator.Store.{Plan, Task, Session, put_task, commit, state_of}
use agent_operator.Service.{get_task}
use agent_operator.Agent.Orchestrator.World.{OrchestratorState}
use agent_operator.Agent.Orchestrator.Walk.{walk_to}
use agent_operator.Agent.Orchestrator.Walk.Laws.{is_ordered, further, walk_to_forward}
use agent_operator.Agent.Orchestrator.Run.{persist_result, store_plan}
use agent_operator.Agent.Orchestrator.Run.Smooth.{Never, Row}

-- The task is completed, for the session and for good.
abbrev pub IsCompleted : ℕ → Session → Type 0
IsCompleted id s = (state_of id s.now ≡ some completed) × (state_of id s.saved ≡ some completed)

module _ (id : ℕ) (t : Task) where
  pub get_task-Row : Triple (Row id t) (get_task id) (λ r s. (r ≡ t) × Row id t s) Never
  unfolding get_task ◌>>=◌
  get_task-Row = record { at = λ s h. rw (h, or_raise) (refl, h) }

  pub walk_to-Row :
      (target : TaskState)
      → is_ordered t.state ≡ true
      → is_ordered target ≡ true
      → Triple
          (Row id t)
          (walk_to id target)
          (λ _ s. Unit {0} × Row id (record t { state = further t.state target }) s)
          Never
  walk_to-Row target from to = record {
    at = λ s h. let (done, there) = walk_to_forward id target t s h from to in rw done (tt, there);
  }

  pub store_plan-Row :
      (plan : Plan)
      → Triple
          (Row id t)
          (store_plan id plan)
          (λ r s. (r ≡ plan) × Row id (record t { plan = some plan }) s)
          Never
  unfolding store_plan get_task put_task commit ◌>>=◌
  store_plan-Row plan = record {
    at = λ s h.
        rw (h, or_raise) (refl, lookup-insert_self id (record t { plan = some plan }) s.now.tasks);
  }

  pub persist_result-IsCompleted :
      (progress : OrchestratorState)
      → t.state ≡ completed
      → Triple (Row id t) (persist_result id progress) (λ _. IsCompleted id) Never
  unfolding persist_result put_task commit ◌>>=◌
  persist_result-IsCompleted progress done = record {
    at = λ s h. rw h (rw lookup-insert_self (rw done (refl, refl)));
  }
