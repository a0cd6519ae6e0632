-- ===== src/Agent/Orchestrator/Run/Endings.antt =====
-- The endings of a run: the last walk, what is stored in the task, and the `except` clauses.
use agent_operator.Errors.{Error, approval_required_error, timeout_error}
use agent_operator.Prelude.{
  ℕ, ◌≡◌, refl, sym, ◌∙◌, ap, ◌⊎◌, inl, inr, some, List, [], ◌∷◌, map, length, lookup, arith,
  Option-cases, lookup-insert_self, or_raise, ◌>>=◌,
}
use mathlib.Core.Option
use agent_operator.Prelude.Triple.{Triple, Triple-pure, Triple-seq, Triple-weaken}
use agent_operator.State.{
  TaskState, completed, failed, timed_out, waiting_for_approval, can_transition,
}
use agent_operator.Store.{Plan, Task, Session, put_task, commit}
use agent_operator.Service.{get_task}
use agent_operator.Agent.Orchestrator.World.{World, OrchestratorState, initial_progress}
use agent_operator.Agent.Orchestrator.Walk.{route, walk, walk_to}
use agent_operator.Agent.Orchestrator.Walk.Laws.{last_of}
use agent_operator.Agent.Orchestrator.Steps.Outcome.{
  onto, success_of, IsExcused, IsRefusal, IsIn, transition_task_lem, Triple-lifted,
}
use agent_operator.Agent.Orchestrator.Run.{
  persist_result, persist_error, pause, end_with, handle_error,
}

walk_end :
    (id : ℕ) (current : TaskState) (states : List TaskState)
    → Triple
        (IsIn id current)
        (walk id states)
        (λ _. IsIn id (last_of current states))
        (λ e _. IsRefusal e)
unfolding walk
walk_end id current [] = Triple-pure tt (λ s h. h)
walk_end id current (state ∷ states) =
    Triple-seq (transition_task_lem (IsIn id current) id state) λ _. walk_end id state states

-- No state lies past COMPLETED.
route_to_completed : (s : TaskState) → last_of s (route s completed) ≡ completed
unfolding route
route_to_completed s = ground arith

pub walk_to_lem :
    (P : Session → Type 0) (id : ℕ) (target : TaskState)
    → Triple P
        (walk_to id target)
        (λ _ s'. (s : TaskState) × IsIn id (last_of s (route s target)) s')
        (λ e _. IsRefusal e)
unfolding walk_to get_task ◌>>=◌
walk_to_lem P id target = record {
  at = λ s h. elim (Option-cases (lookup id s.now.tasks)) [
    | inl missing ↦ rw missing (inl refl)
    | inr (t, found) ↦
        rw (found, or_raise)
          ((Triple-weaken _ (walk_end id t.state (route t.state target)) (λ s h. h)
              (λ _ s h. (t.state, h)) (λ e s h. h)).at
            s (rw found refl))
  ];
}

pub walk_to_completed :
    (P : Session → Type 0) (id : ℕ)
    → Triple P (walk_to id completed) (λ _. IsIn id completed) (λ e _. IsRefusal e)
walk_to_completed P id =
    Triple-weaken _ (walk_to_lem P id completed) (λ s h. h)
      (λ _ s (from, h). h ∙ ap some (route_to_completed from)) (λ e s h. h)

persist_error_lem :
    (id : ℕ) (e : Error) (state : TaskState)
    → Triple (IsIn id state) (persist_error id e) (λ _. IsIn id state) (λ _ _. Unit)
unfolding persist_error put_task commit ◌>>=◌
persist_error_lem id e state = record {
  at = λ s h. elim (Option-cases (lookup id s.now.tasks)) [
    | inl missing ↦ rw missing h
    | inr (t, found) ↦
        rw (found, lookup-insert_self id (record t { error = some e }) s.now.tasks)
          (sym (ap (Option.map (λ t. t.state)) found) ∙ h)
  ];
}

-- The row of a completed task: it tells how many steps were run and that each was a success.
pub record IsReported (id : ℕ) (plan : Plan) (s : Session) : Type 0 where
  pub task : Task
  pub found : lookup id s.now.tasks ≡ some task
  pub state : task.state ≡ completed
  pub summary :
      task.summary
      ≡ some (record {
        iterations = length plan;
        tool_calls = length plan;
        steps = map success_of plan;
      })

-- How a run that returns has left its task: completed, with all steps of the plan run in their
-- order and reported; or paused, out of time, or failed.
pub record IsFinished (id : ℕ) (w : World) : Type 0 where
  pub plan : Plan
  pub known : w.progress.plan ≡ some plan
  pub invoked : w.invoked ≡ onto plan []
  pub reported : IsReported id plan w.session

abbrev pub IsEnded : ℕ → World → Type 0
IsEnded id w =
    IsFinished id w
    ⊎ IsIn id waiting_for_approval w.session
    ⊎ IsIn id timed_out w.session
    ⊎ IsIn id failed w.session

abbrev pub start : Plan → OrchestratorState
start plan = record initial_progress { plan = some plan }

pub persist_result_lem :
    (id : ℕ) (plan : Plan) (progress : OrchestratorState)
    → progress.iterations ≡ length plan
    → progress.tool_call_count ≡ length plan
    → progress.step_outputs ≡ map success_of plan
    → Triple
        (IsIn id completed)
        (persist_result id progress)
        (λ _. IsReported id plan)
        (λ e _. IsRefusal e)
unfolding persist_result put_task commit ◌>>=◌
persist_result_lem id plan progress i c o = record {
  at = λ s h. elim (Option-cases (lookup id s.now.tasks)) [
    | inl missing ↦ absurd (ground (arith, sym (ap (Option.map (λ t. t.state)) missing) ∙ h))
    | inr (t, found) ↦ rw found (record {
      task = _;
      found = lookup-insert_self id _ s.now.tasks;
      state = ground (arith, sym (ap (Option.map (λ t. t.state)) found) ∙ h);
      summary = rw (i, c, o) refl;
    })
  ];
}

pause_lem :
    (id : ℕ)
    → Triple
        (IsIn id waiting_for_approval)
        (pause id)
        (λ _. IsIn id waiting_for_approval)
        (λ _ _. Unit)
unfolding pause get_task can_transition ◌>>=◌
pause_lem id = record {
  at = λ s h. elim (Option-cases (lookup id s.now.tasks)) [
    | inl missing ↦ rw missing tt
    | inr (t, found) ↦
        let there : t.state ≡ waiting_for_approval =
          ground (arith, sym (ap (Option.map (λ t. t.state)) found) ∙ h) in
        rw (found, or_raise) (rw there h)
  ];
}

end_with_lem :
    (id : ℕ) (state : TaskState) (e : Error) (P : Session → Type 0)
    → Triple P (end_with id state e) (λ _. IsIn id state) (λ _ _. Unit)
unfolding end_with
end_with_lem id state e P =
    Triple-seq
      (Triple-weaken _ (transition_task_lem P id state) (λ s h. h) (λ _ s h. h) (λ _ _ _. tt))
      λ _. persist_error_lem id e state

pub handle_error_lem :
    (id : ℕ) (e : Error)
    → Triple (IsExcused id e) (handle_error id e) (λ _. IsEnded id) (λ _ _. Unit)
unfolding handle_error
handle_error_lem id approval_required_error =
    Triple-weaken _ (Triple-lifted _ (pause_lem id)) (λ w x. x.is_paused refl)
      (λ _ w h. inr (inl h)) (λ _ _ _. tt)
handle_error_lem id timeout_error =
    Triple-weaken _ (Triple-lifted _ (end_with_lem id timed_out timeout_error (λ _. Unit)))
      (λ w x. tt) (λ _ w h. inr (inr (inl h))) (λ _ _ _. tt)
handle_error_lem id e =
    Triple-weaken _ (Triple-lifted _ (end_with_lem id failed e (λ _. Unit))) (λ w x. tt)
      (λ _ w h. inr (inr (inr h))) (λ _ _ _. tt)
