-- ===== src/Agent/Orchestrator/Run/Gate.antt =====
-- What a run may invoke: every step that needs an approval had one before the run began.
use agent_operator.Errors.{Error, approval_required_error, timeout_error}
use agent_operator.Prelude.{
  ℕ, ◌≡◌, refl, ◌∙◌, ap, ◌&&◌, Option, none, some, List, [], ◌∷◌, String, any, All, lift, pure,
  gets, modify, Action, Table, Result, ok, err,
}
use agent_operator.Prelude.Keeps.{IsPreorder, Keeps, Keeps-seq, keeps_rules}
use agent_operator.Prelude.Triple.{
  Triple, Ends, Triple-pure, Triple-if, Triple-seq, Triple-given, Triple-weaken, Triple-catch,
  Triple-finally,
}
use agent_operator.State.{TaskState}
use agent_operator.Store.{
  Plan, Task, Approval, AgentRun, Session, RunStatus, success, put_task, put_run, commit,
}
use agent_operator.Service.{get_task, transition_task}
use agent_operator.Agent.Orchestrator.World.{
  Env, World, in_session, set_progress, is_browser, start_agent_run, finish_agent_run,
}
use agent_operator.Agent.Orchestrator.Walk.{walk, walk_to}
use agent_operator.Agent.Orchestrator.Steps.Quiet.{in_session-Quiet, Triple-Quiet}
use agent_operator.Agent.Orchestrator.Steps.Gate.{IsCleared, Safe, AllCleared, execute_steps-Safe}
use agent_operator.Agent.Orchestrator.Run.{
  approved_actions, store_plan, handle_error, start_planning, make_plan, plan_for, open_browser,
  close_browser, work, body, run,
}

-- The approvals are left alone.
abbrev Decided : Session → Session → Type 0
Decided s s' = s'.now.approvals ≡ s.now.approvals

Decided-preorder : IsPreorder Decided
Decided-preorder = record { same = λ s. refl; step = λ s t u p q. q ∙ p }

put_run-Decided : (id : ℕ) (row : AgentRun) → Keeps Decided (put_run id row)
unfolding put_run
put_run-Decided id row = record { at = λ s. refl }

put_task-Decided : (id : ℕ) (task : Task) → Keeps Decided (put_task id task)
unfolding put_task
put_task-Decided id task = record { at = λ s. refl }

commit-Decided : Keeps Decided commit
unfolding commit
commit-Decided = record { at = λ s. refl }

ruleset row_rules =
    (keeps_rules, Decided-preorder, put_run-Decided, put_task-Decided, commit-Decided)

get_task-Decided : (id : ℕ) → Keeps Decided (get_task id)
unfolding get_task
get_task-Decided id = search row_rules

transition_task-Decided : (id : ℕ) (target : TaskState) → Keeps Decided (transition_task id target)
unfolding transition_task
transition_task-Decided id target = search (row_rules, get_task-Decided) depth 12

walk-Decided : (id : ℕ) (states : List TaskState) → Keeps Decided (walk id states)
unfolding walk
walk-Decided id [] = search row_rules
walk-Decided id (state ∷ states) =
    Keeps-seq Decided-preorder (transition_task-Decided id state) λ _. walk-Decided id states

start_planning-Decided : (id : ℕ) → Keeps Decided (start_planning id)
unfolding start_planning walk_to
start_planning-Decided id = search (row_rules, get_task-Decided, walk-Decided) depth 12

start_agent_run-Decided : (id : ℕ) (name : String) → Keeps Decided (start_agent_run id name)
unfolding start_agent_run
start_agent_run-Decided id name = search row_rules

finish_agent_run-Decided :
    (id : ℕ) (status : RunStatus) → Keeps Decided (finish_agent_run id status)
unfolding finish_agent_run
finish_agent_run-Decided id status =
    Keeps-seq Decided-preorder (search row_rules)
      (elim [ none ↦ search row_rules | some row ↦ put_run-Decided id _ ])

store_plan-Decided : (id : ℕ) (plan : Plan) → Keeps Decided (store_plan id plan)
unfolding store_plan
store_plan-Decided id plan = search (row_rules, get_task-Decided) depth 12

plan_for-Decided : (env : Env) (id : ℕ) (task : Task) → Keeps Decided (plan_for env id task)
unfolding plan_for make_plan
plan_for-Decided env id task =
    elim (task.plan)
      as (λ p. Keeps Decided (elim p [ none ↦ make_plan env id task | some plan ↦ pure plan ])) [
        | none ↦ Keeps-seq Decided-preorder (start_agent_run-Decided id _) λ r.
            Keeps-seq Decided-preorder (search (row_rules, finish_agent_run-Decided)) λ plan.
              Keeps-seq Decided-preorder (finish_agent_run-Decided r success)
                λ _. store_plan-Decided id plan
        | some plan ↦ search row_rules
      ]

-- Until the approvals are read, nothing is invoked and no approval changes.
record Prepares (w w' : World) : Type 0 where
  invoked : w'.invoked ≡ w.invoked
  decided : Decided w.session w'.session

Prepares-preorder : IsPreorder Prepares
Prepares-preorder = record {
  same = λ w. record { invoked = refl; decided = refl };
  step = λ u v w p q. record { invoked = q.invoked ∙ p.invoked; decided = q.decided ∙ p.decided };
}

in_session-Prepares :
    {A : Type 0} (m : Action Session A) → Keeps Decided m → Keeps Prepares (in_session m)
unfolding in_session
in_session-Prepares m k = record { at = λ w. record { invoked = refl; decided = k.at w.session } }

Ends-kept :
    {A : Type 0} (P : World → Type 0) (r : Result A) (w : World) → P w → Ends (λ _. P) (λ _. P) r w
Ends-kept P (ok a) w h = h
Ends-kept P (err e) w h = h

Ends-drop :
    {A : Type 0} (P : World → Type 0) (r : Result A) (w : World) → Ends (λ _. P) (λ _. P) r w → P w
Ends-drop P (ok a) w h = h
Ends-drop P (err e) w h = h

-- What a run starts from: nothing invoked, and these approvals.
abbrev Fresh : Table Approval → World → Type 0
Fresh rows w = (w.invoked ≡ []) × (w.session.now.approvals ≡ rows)

module _ (env : Env) (id : ℕ) (rows : Table Approval) where
  abbrev Cleared : World → Type 0
  Cleared w = AllCleared env (approved_actions id rows) w.invoked

  Fresh-Cleared : (w : World) → Fresh rows w → Cleared w
  Fresh-Cleared w (none_yet, _) = rw none_yet tt

  prepare :
      {A : Type 0} (m : Action World A)
      → Keeps Prepares m
      → Triple (Fresh rows) m (λ _. Fresh rows) (λ _. Cleared)
  prepare m k =
      Triple-weaken m
        (record {
          at = λ w (a, b).
              Ends-kept (Fresh rows) (m w).0 (m w).1 ((k.at w).invoked ∙ a, (k.at w).decided ∙ b);
        })
        (λ w h. h) (λ _ w h. h) (λ _. Fresh-Cleared)

  guarded :
      {A : Type 0} (m : Action Session A)
      → Triple Cleared (in_session m) (λ _. Cleared) (λ _. Cleared)
  guarded m =
      Triple-Quiet (AllCleared env (approved_actions id rows)) (in_session m) (in_session-Quiet m)

  open_browser-Safe : (plan : Plan) → Safe env (approved_actions id rows) (open_browser env plan)
  unfolding open_browser lift modify
  open_browser-Safe plan =
      Triple-if (env.has_browser && any (λ step. is_browser step.agent) plan) _ _
        (λ _.
          Triple-seq {R = λ _. Cleared}
            (record { at = λ w h. Ends-kept Cleared env.browser_opens w h })
            λ b.
              Triple-seq {R = λ _. Cleared} (record { at = λ w h. h })
                λ _. Triple-pure _ (λ w h. h))
        (λ _. Triple-pure _ (λ w h. h))

  close_browser-Safe : (b : Option ℕ) → Safe env (approved_actions id rows) (close_browser env b)
  unfolding close_browser lift modify
  close_browser-Safe none = Triple-pure tt (λ w h. h)
  close_browser-Safe (some b) =
      Triple-seq {R = λ _. Cleared}
        (record { at = λ w h. Ends-kept Cleared env.browser_closes w h })
        λ _. record { at = λ w h. h }

  work-Safe :
      (plan : Plan)
      → Safe env (approved_actions id rows) (work env id (approved_actions id rows) plan)
  unfolding work gets
  work-Safe plan = Triple-seq (guarded _) λ _.
      Triple-seq (execute_steps-Safe env (approved_actions id rows) id 0 plan) λ _.
        Triple-seq (guarded _) λ _.
          Triple-seq (guarded _)
            λ _. Triple-seq {R = λ _. Cleared} (record { at = λ w h. h }) λ progress. guarded _

  handle_error-Safe : (e : Error) → Safe env (approved_actions id rows) (handle_error id e)
  unfolding handle_error
  handle_error-Safe approval_required_error = guarded _
  handle_error-Safe timeout_error = guarded _
  handle_error-Safe e = guarded _

  body-Safe :
      (plan : Plan)
      → Safe env (approved_actions id rows) (body env id (approved_actions id rows) plan)
  unfolding body
  body-Safe plan = Triple-seq (open_browser-Safe plan) λ b. Triple-finally _ _ (work-Safe plan) λ r.
      Triple-weaken _ (close_browser-Safe b) (Ends-drop Cleared r) (λ _. Ends-kept Cleared r)
        (λ _ w h. h)

  run_Safe : Triple (Fresh rows) (run env id) (λ _. Cleared) (λ _. Cleared)
  unfolding run gets modify set_progress
  run_Safe = Triple-seq (prepare _ (in_session-Prepares _ (get_task-Decided id))) λ first.
      Triple-seq {R = λ _. Fresh rows} (record { at = λ w h. h })
        λ _. Triple-seq (prepare _ (in_session-Prepares _ (start_planning-Decided id))) λ task.
          Triple-seq (prepare _ (in_session-Prepares _ (plan_for-Decided env id task))) λ plan.
            Triple-seq {R = λ _. Fresh rows} (record { at = λ w h. h })
              λ _.
                Triple-seq {R = λ approved w. (approved ≡ approved_actions id rows) × Fresh rows w}
                  (record { at = λ w h. (ap (approved_actions id) h.1, h) })
                  λ approved. Triple-given _ λ w (same, _). rw same (
                    Triple-weaken _ (Triple-catch _ _ (body-Safe plan) handle_error-Safe)
                      (λ v h. Fresh-Cleared v h.1) (λ _ v h. h) (λ _ v h. h))

-- If nothing was invoked before a run, then, however it ends, it has invoked a graph only for steps
-- that need no approval, or whose name was among the
-- approved actions of the task before the run began.
pub run-IsCleared :
    (env : Env) (id : ℕ) (w : World)
    → w.invoked ≡ []
    → All (IsCleared (approved_actions id w.session.now.approvals)) (run env id w).1.invoked
run-IsCleared env id w none_yet =
    let rows = w.session.now.approvals in
    Ends-drop (Cleared env id rows) (run env id w).0 (run env id w).1
      ((run_Safe env id rows).at w (none_yet, refl))
