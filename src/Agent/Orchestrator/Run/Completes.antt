-- ===== src/Agent/Orchestrator/Run/Completes.antt =====
-- A run of a new task completes it when nothing goes wrong.
use agent_operator.Prelude.{
  ℕ, ◌+◌, ◌≡◌, refl, ap, arith, String, true, ◌&&◌, Option, none, some, List, [], any, length,
  lookup, Result, ok, err, lift, gets, modify, catch,
}
use agent_operator.Prelude.Triple.{
  Triple, Ends, Triple-pure, Triple-if, Triple-seq, Triple-given, Triple-weaken, Triple-catch,
  Triple-finally,
}
use agent_operator.State.{TaskState, created, planning, executing, verifying, completed}
use agent_operator.Store.{Plan, Task, success, state_of}
use agent_operator.Text.{Text}
use agent_operator.Agent.Planner.{decide_plan}
use agent_operator.Agent.Orchestrator.World.{Env, World, in_session, set_progress, is_browser}
use agent_operator.Agent.Orchestrator.Walk.{walk_to}
use agent_operator.Agent.Orchestrator.Walk.Laws.{is_ordered, further}
use agent_operator.Agent.Orchestrator.Steps.Outcome.{Triple-lifted}
use agent_operator.Agent.Orchestrator.Run.{
  start_planning, make_plan, plan_for, open_browser, close_browser, work, body, run,
}
use agent_operator.Agent.Orchestrator.Run.Smooth.{
  IsSmooth, Never, Row, Live, Live-in_session, start_agent_run-Row, finish_agent_run-Row,
  execute_steps-Live,
}
use agent_operator.Agent.Orchestrator.Run.Rows.{
  IsCompleted, get_task-Row, walk_to-Row, store_plan-Row, persist_result-IsCompleted,
}

-- A task as `TaskService.create_task` stores it, with a timeout.
abbrev pub new_task : Text → Option String → Option ℕ → Task
new_task instruction user_id timeout = record {
  instruction = instruction;
  state = created;
  user_id = user_id;
  plan = none;
  summary = none;
  error = none;
  timeout_seconds = timeout;
}

module _ (env : Env) (id : ℕ) (instruction : Text) (user_id : Option String)
    (timeout : Option ℕ) where
  -- The task in a state of the run, before and after the plan is stored.
  abbrev Unplanned : TaskState → Task
  Unplanned state = record (new_task instruction user_id timeout) { state = state }

  abbrev Planned : Plan → TaskState → Task
  Planned plan state = record (Unplanned state) { plan = some plan }

  start_planning-Row :
      Triple
        (Row id (Unplanned created))
        (start_planning id)
        (λ r s. (r ≡ Unplanned planning) × Row id (Unplanned planning) s)
        Never
  unfolding start_planning
  start_planning-Row = Triple-seq (get_task-Row id (Unplanned created)) λ task.
      Triple-given _ λ s (same, _). rw same (
        Triple-seq
          (Triple-weaken _ (walk_to-Row id (Unplanned created) planning refl refl) (λ v h. h.1)
            (λ _ v h. h) (λ _ v h. h))
          λ _.
            Triple-weaken _ (get_task-Row id (Unplanned planning)) (λ v h. h.1) (λ _ v h. h)
              (λ _ v h. h))

  plan_for-Row :
      (plan : Plan)
      → decide_plan env.planner instruction ≡ ok plan
      → Triple
          (Row id (Unplanned planning))
          (plan_for env id (Unplanned planning))
          (λ r s. (r ≡ plan) × Row id (Planned plan planning) s)
          Never
  unfolding plan_for make_plan lift catch
  plan_for-Row plan planned =
      let t = Unplanned planning in
      Triple-seq (start_agent_run-Row id t _) λ r.
        Triple-seq {R = λ p s. (p ≡ plan) × Row id t s}
          (record { at = λ s h. rw planned (refl, h.1) })
          λ p. Triple-given _ λ s (same, _).
            Triple-seq
              (Triple-weaken _ (finish_agent_run-Row id r t success) (λ v h. h.1) (λ _ v h. h)
                (λ _ v h. h))
              λ _.
                rw same (
                  Triple-weaken _ (store_plan-Row id t plan) (λ v h. h.1) (λ _ v h. h) (λ _ v h. h))

  module _ (plan : Plan) (smooth : IsSmooth env timeout plan) where
    walk-Live :
        (state target : TaskState) (i c : ℕ)
        → is_ordered state ≡ true
        → is_ordered target ≡ true
        → Triple
            (Live id (Planned plan state) timeout i c)
            (in_session (walk_to id target))
            (λ _. Live id (Planned plan (further state target)) timeout i c)
            Never
    walk-Live state target i c from to =
        Triple-weaken _
          (Live-in_session (λ _. Unit) id (Planned plan state) (Planned plan (further state target))
            timeout i c _ (walk_to-Row id (Planned plan state) target from to))
          (λ v h. h) (λ _ v h. h.1) (λ _ v h. h)

    work-IsCompleted :
        (approved : List String)
        → Triple
            (Live id (Planned plan planning) timeout 0 0)
            (work env id approved plan)
            (λ _ w. IsCompleted id w.session)
            Never
    unfolding work gets
    work-IsCompleted approved =
        let n = 0 + length plan in
        Triple-seq (walk-Live planning executing 0 0 refl refl) λ _.
          Triple-seq
            (execute_steps-Live env timeout plan smooth id (Planned plan executing) approved 0 0
              plan (omega (arith, smooth.iterations)) (omega (arith, smooth.tool_calls))
              smooth.free)
            λ _. Triple-seq (walk-Live executing verifying n n refl refl) λ _.
              Triple-seq (walk-Live verifying completed n n refl refl) λ _.
                Triple-seq {R = λ _ w. Row id (Planned plan completed) w.session}
                  (record { at = λ w h. h.1 })
                  λ progress.
                    Triple-lifted _
                      (persist_result-IsCompleted id (Planned plan completed) progress refl)

    Done : Unit {0} → World → Type 0
    Done _ w = IsCompleted id w.session

    closing :
        (b : Option ℕ) (r : Result (Unit {0}))
        → Triple (Ends Done Never r) (close_browser env b) (λ _. Ends Done Never r) Never
    unfolding close_browser lift modify Done
    closing none r = Triple-pure tt (λ w h. h)
    closing (some b) r =
        Triple-seq {R = λ _. Ends Done Never r} (record { at = λ w h. rw smooth.closes h })
          λ _. record { at = λ w h. kept r w h }
      where
        kept :
            (r : Result (Unit {0})) (w : World)
            → Ends Done Never r w
            → Ends Done Never r (record w { browsers = [] })
        kept (ok _) w h = h
        kept (err e) w h = h

    body-IsCompleted :
        (approved : List String)
        → Triple
            (Live id (Planned plan planning) timeout 0 0)
            (body env id approved plan)
            (λ _ w. IsCompleted id w.session)
            Never
    unfolding body open_browser lift modify Done
    body-IsCompleted approved =
        Triple-seq {R = λ _. Live id (Planned plan planning) timeout 0 0}
          (Triple-if (env.has_browser && any (λ step. is_browser step.agent) plan) _ _
            (λ _.
              Triple-seq {R = λ _. Live id (Planned plan planning) timeout 0 0}
                (record { at = λ w h. rw smooth.opens h })
                λ b.
                  Triple-seq {R = λ _. Live id (Planned plan planning) timeout 0 0}
                    (record { at = λ w h. h }) λ _. Triple-pure (some b) (λ w h. h))
            (λ _. Triple-pure none (λ w h. h)))
          λ b. Triple-finally _ _ (work-IsCompleted approved) (closing b)

    run-IsCompleted_lem :
        decide_plan env.planner instruction ≡ ok plan
        → Triple
            (λ w. Row id (Unplanned created) w.session)
            (run env id)
            (λ _ w. IsCompleted id w.session)
            Never
    unfolding run gets modify set_progress
    run-IsCompleted_lem planned =
        Triple-seq (Triple-lifted _ (get_task-Row id (Unplanned created))) λ first.
          Triple-given _ λ w (same, _).
            Triple-seq {R = λ _. Live id (Unplanned created) timeout 0 0}
              (record { at = λ v h. ((ap (λ t. t.timeout_seconds) same, refl, refl), h.1) })
              λ _.
                Triple-seq
                  (Live-in_session _ id (Unplanned created) (Unplanned planning) timeout 0 0 _
                    start_planning-Row)
                  λ task. Triple-given _ λ v (is_task, _). rw is_task (
                    Triple-seq
                      (Triple-weaken _
                        (Live-in_session _ id (Unplanned planning) (Planned plan planning) timeout 0
                          0 _ (plan_for-Row plan planned))
                        (λ u h. h.1) (λ _ u h. h) (λ _ u h. h))
                      λ found. Triple-given _ λ u (is_plan, _). rw is_plan (
                        Triple-seq {R = λ _. Live id (Planned plan planning) timeout 0 0}
                          (record { at = λ x h. h.1 })
                          λ _.
                            Triple-seq {R = λ _. Live id (Planned plan planning) timeout 0 0}
                              (record { at = λ x h. h })
                              λ approved.
                                Triple-catch _ _ (body-IsCompleted approved)
                                  (λ e. record { at = λ x h. absurd h })))

Ends-returned :
    (Q : Unit {0} → World → Type 0) (r : Result (Unit {0})) (w : World)
    → Ends Q Never r w
    → (r ≡ ok tt) × Q tt w
Ends-returned Q (ok _) w h = (refl, h)
Ends-returned Q (err e) w h = absurd h

-- A new task is run to its end and stored as completed, if the planner has a plan for its
-- instruction, no step of the plan needs an approval, there is a graph for every step and it
-- answers, the task is not cancelled and in time at every check, the plan is no longer than the
-- limits on iterations and tool calls, and the browser, where it is used, opens and closes.
pub run_completes :
    (env : Env) (id : ℕ) (instruction : Text) (user_id : Option String) (timeout : Option ℕ)
    (plan : Plan) (w : World)
    → lookup id w.session.now.tasks ≡ some (new_task instruction user_id timeout)
    → decide_plan env.planner instruction ≡ ok plan
    → IsSmooth env timeout plan
    → let (r, w') = run env id w in
      (r ≡ ok tt)
      × (state_of id w'.session.now ≡ some completed)
      × (state_of id w'.session.saved ≡ some completed)
run_completes env id instruction user_id timeout plan w found planned smooth =
    let (returned, done) =
      Ends-returned (λ _ v. IsCompleted id v.session) (run env id w).0 (run env id w).1
        ((run-IsCompleted_lem env id instruction user_id timeout plan smooth planned).at w found) in
    (returned, done.0, done.1)
