-- ===== src/Agent/Orchestrator/Run/Approved.antt =====
-- Which approvals `_approved_actions_for` finds.
use agent_operator.Prelude.{
  ℕ, ◌≡◌, refl, ap, ◌↔◌, inl, inr, arith, String, true, ◌&&◌, ◌==◌, ==_iff, str_eq, eq_iff, [], ◌∷◌,
  Table, In, contains, Bool-cases,
}
use agent_operator.Store.{Approval, ApprovalStatus}
use agent_operator.Agent.Orchestrator.Run.{approved_actions, is_approved}

-- A row of the task that approves the action.
pub record HasApproval (task_id : ℕ) (rows : Table Approval) (action : String) : Type 0 where
  pub id : ℕ
  pub row : Approval
  pub stored : In (id, row) rows
  pub task : row.task_id ≡ task_id
  pub status : row.status ≡ ApprovalStatus.approved
  pub action_of : row.action ≡ action

is_approved_lem : (s : ApprovalStatus) → is_approved s ≡ true → s ≡ ApprovalStatus.approved
is_approved_lem s h = ground arith

later :
    (task_id : ℕ) (head : ℕ × Approval) (rows : Table Approval) (action : String)
    → HasApproval task_id rows action
    → HasApproval task_id (head ∷ rows) action
later task_id head rows action a = record {
  id = a.id;
  row = a.row;
  stored = inr a.stored;
  task = a.task;
  status = a.status;
  action_of = a.action_of;
}

approved_actions_sound :
    (task_id : ℕ) (rows : Table Approval) (action : String)
    → contains (approved_actions task_id rows) action ≡ true
    → HasApproval task_id rows action
unfolding approved_actions
approved_actions_sound task_id [] action h = absurd (ground (arith, h))
approved_actions_sound task_id ((id, row) ∷ rows) action h =
    elim (Bool-cases
      (row.task_id == task_id && is_approved row.status && str_eq row.action action)) [
        | inl here ↦ record {
          id = id;
          row = row;
          stored = inl refl;
          task = ground (arith, here, ==_iff row.task_id task_id);
          status = is_approved_lem row.status (ground (arith, here));
          action_of = ground (arith, here, eq_iff row.action action);
        }
        | inr not_here ↦
            later task_id (id, row) rows action
              (approved_actions_sound task_id rows action (ground (arith, h, not_here)))
      ]

approved_actions_complete :
    (task_id : ℕ) (rows : Table Approval) (action : String) (id : ℕ) (row : Approval)
    → In (id, row) rows
    → row.task_id ≡ task_id
    → row.status ≡ ApprovalStatus.approved
    → row.action ≡ action
    → contains (approved_actions task_id rows) action ≡ true
unfolding approved_actions
approved_actions_complete task_id [] action id row stored t s a = elim stored [ ]
approved_actions_complete task_id ((id', row') ∷ rows) action id row (inl here) t s a =
    let same : row ≡ row' = ap (λ q. q.1) here in
    rw (← same)
      (ground (arith, a, ap is_approved s, t, ==_iff row.task_id task_id, eq_iff row.action action))
approved_actions_complete task_id ((id', row') ∷ rows) action id row (inr there) t s a =
    ground (arith, approved_actions_complete task_id rows action id row there t s a)

-- The approved actions of a task are exactly the actions of the stored approvals of that task whose
-- status is approved.
pub contains-approved_actions_iff :
    (task_id : ℕ) (rows : Table Approval) (action : String)
    → (contains (approved_actions task_id rows) action ≡ true) ↔ HasApproval task_id rows action
contains-approved_actions_iff task_id rows action = (
  approved_actions_sound task_id rows action,
  λ a.
      approved_actions_complete task_id rows action a.id a.row a.stored a.task a.status a.action_of,
)
