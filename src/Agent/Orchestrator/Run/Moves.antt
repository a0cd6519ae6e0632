-- ===== src/Agent/Orchestrator/Run/Moves.antt =====
-- `Orchestrator.run` moves the tasks only along the diagram of app/domain/state_machine.py.
use agent_operator.Errors.{Error, approval_required_error, timeout_error}
use agent_operator.Prelude.{
  ℕ, ◌≡◌, refl, Option, none, some, List, String, lookup, insert, inl, inr, Option-cases, or_raise,
  pure, ◌>>=◌, modify,
}
use agent_operator.Prelude.Keeps.{Keeps, Keeps-seq, keeps_rules}
use agent_operator.State.{TaskState}
use agent_operator.State.Diagram.{◌⟶*◌, here}
use agent_operator.Store.{Plan, Task, Session, success, put_task, commit}
use agent_operator.Service.{get_task}
use agent_operator.Service.Follows.{
  HasMoved, Evolves, Evolves-refl, Evolves-insert, Evolves-trans, Follows, Follows-preorder,
  get_task-Follows, transition_task-Follows,
}
use agent_operator.Agent.Orchestrator.World.{Env, World, OrchestratorState}
use agent_operator.Agent.Orchestrator.Walk.Laws.{walk_to-Follows}
use agent_operator.Agent.Orchestrator.Steps.Moves.{
  Trails, Trails-same_session, in_session-Trails, trail_rules, run_rules, start_agent_run-Follows,
  finish_agent_run-Follows, execute_steps-Trails,
}
use agent_operator.Agent.Orchestrator.Run.{
  persist_result, persist_error, store_plan, pause, end_with, handle_error, start_planning,
  make_plan, plan_for, open_browser, close_browser, work, body, run,
}

-- A row is written again in the state it has, and committed.
Follows-rewrite :
    (s s' : Session) (id : ℕ) (t t' : Task)
    → lookup id s.now.tasks ≡ some t
    → t.state ⟶* t'.state
    → s'.now ≡ record s.now { tasks = insert id t' s.now.tasks }
    → s'.saved ≡ s'.now
    → Follows s s'
Follows-rewrite s s' id t t' found way seen saved =
    let e = Evolves-insert s.now.tasks id t t' found way in
    record { seen = rw seen e; committed = λ a n c. rw saved (rw seen (Evolves-trans n e)) }

pub persist_result-Follows : (id : ℕ) (p : OrchestratorState) → Keeps Follows (persist_result id p)
unfolding persist_result put_task commit ◌>>=◌
persist_result-Follows id p = record {
  at = λ s. elim (Option-cases (lookup id s.now.tasks)) [
    | inl missing ↦ rw missing (Follows-preorder.same s)
    | inr (t, found) ↦ rw found (Follows-rewrite s _ id t _ found here refl refl)
  ];
}

pub persist_error-Follows : (id : ℕ) (e : Error) → Keeps Follows (persist_error id e)
unfolding persist_error put_task commit ◌>>=◌
persist_error-Follows id e = record {
  at = λ s. elim (Option-cases (lookup id s.now.tasks)) [
    | inl missing ↦ rw missing (Follows-preorder.same s)
    | inr (t, found) ↦ rw found (Follows-rewrite s _ id t _ found here refl refl)
  ];
}

store_plan-Follows : (id : ℕ) (plan : Plan) → Keeps Follows (store_plan id plan)
unfolding store_plan get_task put_task commit ◌>>=◌
store_plan-Follows id plan = record {
  at = λ s. elim (Option-cases (lookup id s.now.tasks)) [
    | inl missing ↦ rw missing (Follows-preorder.same s)
    | inr (t, found) ↦ rw (found, or_raise) (Follows-rewrite s _ id t _ found here refl refl)
  ];
}

ruleset task_rules = (
  keeps_rules, Follows-preorder, get_task-Follows, transition_task-Follows, walk_to-Follows,
  persist_result-Follows, persist_error-Follows, store_plan-Follows, run_rules,
)

pause-Follows : (id : ℕ) → Keeps Follows (pause id)
unfolding pause
pause-Follows id = search task_rules depth 12

end_with-Follows : (id : ℕ) (state : TaskState) (e : Error) → Keeps Follows (end_with id state e)
unfolding end_with
end_with-Follows id state e = search task_rules

start_planning-Follows : (id : ℕ) → Keeps Follows (start_planning id)
unfolding start_planning
start_planning-Follows id = search task_rules depth 12

handle_error-Trails : (id : ℕ) (e : Error) → Keeps Trails (handle_error id e)
unfolding handle_error
handle_error-Trails id approval_required_error = in_session-Trails _ (pause-Follows id)
handle_error-Trails id timeout_error = in_session-Trails _ (end_with-Follows id _ _)
handle_error-Trails id e = in_session-Trails _ (end_with-Follows id _ _)

modify-Trails :
    (f : World → World) → ((w : World) → (f w).session ≡ w.session) → Keeps Trails (modify f)
unfolding modify
modify-Trails f e = record { at = λ w. Trails-same_session w _ (e w) }

Evolves-of_eq :
    (s : Session)
    → s.saved ≡ s.now
    → Evolves s.now.tasks s.now.tasks × Evolves s.now.tasks s.saved.tasks
Evolves-of_eq s e = (Evolves-refl s.now.tasks, rw e (Evolves-refl s.now.tasks))

module _ (env : Env) where
  make_plan-Follows : (id : ℕ) (task : Task) → Keeps Follows (make_plan env id task)
  unfolding make_plan
  make_plan-Follows id task = Keeps-seq Follows-preorder (start_agent_run-Follows id _) λ r.
      Keeps-seq Follows-preorder (search task_rules) λ plan.
        Keeps-seq Follows-preorder (finish_agent_run-Follows r success)
          λ _. store_plan-Follows id plan

  plan_for-Follows : (id : ℕ) (task : Task) → Keeps Follows (plan_for env id task)
  unfolding plan_for
  plan_for-Follows id task =
      elim (task.plan)
        as (λ p. Keeps Follows (elim p [ none ↦ make_plan env id task | some plan ↦ pure plan ])) [
          | none ↦ make_plan-Follows id task
          | some plan ↦ search task_rules
        ]

  open_browser-Trails : (plan : Plan) → Keeps Trails (open_browser env plan)
  unfolding open_browser
  open_browser-Trails plan = search (trail_rules, modify-Trails)

  close_browser-Trails : (b : Option ℕ) → Keeps Trails (close_browser env b)
  unfolding close_browser
  close_browser-Trails none = search trail_rules
  close_browser-Trails (some id) = search (trail_rules, modify-Trails)

  work-Trails :
      (id : ℕ) (approved : List String) (plan : Plan) → Keeps Trails (work env id approved plan)
  unfolding work
  work-Trails id approved plan =
      search (trail_rules, walk_to-Follows, persist_result-Follows, execute_steps-Trails) depth 14

  pub body-Trails :
      (id : ℕ) (approved : List String) (plan : Plan) → Keeps Trails (body env id approved plan)
  unfolding body
  body-Trails id approved plan =
      search (trail_rules, open_browser-Trails, work-Trails, close_browser-Trails)

  run-Trails : (id : ℕ) → Keeps Trails (run env id)
  unfolding run
  run-Trails id =
      search
        (
          trail_rules, modify-Trails, get_task-Follows, start_planning-Follows, plan_for-Follows,
          body-Trails, handle_error-Trails,
        )
        depth 16

  -- However a run ends, every task is still there afterwards, in a state that the diagram leads to
  -- from the state it had before: for the row that the session sees, and for the committed row when
  -- the session had nothing uncommitted at first.
  pub run-HasMoved :
      (task_id id : ℕ) (w : World) (t : Task)
      → w.session.saved ≡ w.session.now
      → lookup id w.session.now.tasks ≡ some t
      → let s' = (run env task_id w).1.session in
        HasMoved t (lookup id s'.now.tasks) × HasMoved t (lookup id s'.saved.tasks)
  run-HasMoved task_id id w t saved found =
      let trail = (run-Trails task_id).at w in
      let same = Evolves-of_eq w.session saved in
      (
        trail.follows.seen.moved id t found,
        (trail.follows.committed w.session.now.tasks same.0 same.1).moved id t found,
      )
