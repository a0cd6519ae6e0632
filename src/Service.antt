-- ===== src/Service.antt =====
-- app/services/task_service.py and app/services/approval_service.py, with the handlers of
-- app/api/routes/tasks.py and app/api/routes/approvals.py that call them.
pub mod Follows
pub mod Api
pub mod Approvals
pub mod Cancel
mod Tests
use agent_operator.Errors.{validation_error, cancellation_error}
use agent_operator.Prelude.{
  ℕ, suc, String, Bool, true, false, not, Option, none, some, List, [], ◌∷◌, ◌==◌, ◌&&◌,
  if◌then◌else◌, Table, Action, Result, pure, gets, lift, or_raise, raise_if, lookup, new_key,
  ◌>>=◌, ◌>>◌,
}
use agent_operator.Policy.{RiskLevel}
use agent_operator.State.{
  TaskState, created, waiting_for_approval, executing, cancelled, transition, can_cancel,
}
use agent_operator.Store.{
  Task, Approval, ApprovalStatus, pending, rejected, Session, commit, put_task, put_approval,
}
use agent_operator.Text.{Text}

-- `TaskService.create_task`, which returns the new row; here its key.
unfoldable pub create_task : Text → Option String → Action Session ℕ
create_task instruction user_id = do
  id ← gets (λ s. new_key s.now.tasks)
  put_task id (record {
    instruction = instruction;
    state = created;
    user_id = user_id;
    plan = none;
    summary = none;
    error = none;
    timeout_seconds = none;
  })
  commit
  pure id

-- `TaskService.get_task`.
unfoldable pub get_task : ℕ → Action Session Task
get_task id = do or_raise (← gets (λ s. lookup id s.now.tasks)) validation_error

-- `TaskService.transition_task`.
unfoldable pub transition_task : ℕ → TaskState → Action Session Task
transition_task id target = do
  task ← get_task id
  state ← lift (transition task.state target)
  put_task id (record task { state = state })
  commit
  pure (record task { state = state })

-- `TaskService.cancel_task`.
unfoldable pub cancel_task : ℕ → Action Session Task
cancel_task id = do
  task ← get_task id
  raise_if (not (can_cancel task.state)) cancellation_error
  transition_task id cancelled

-- `ApprovalRequest` of app/schemas/approval.py, as `build_approval_request` fills it.
pub record ApprovalRequest : Type 0 where
  pub action : String
  pub target : String
  pub risk_level : RiskLevel
  pub reason : Option Text

-- `ApprovalService.create_approval`.
unfoldable pub create_approval : ℕ → ApprovalRequest → Action Session ℕ
create_approval task_id request = do
  id ← gets (λ s. new_key s.now.approvals)
  put_approval id (record {
    task_id = task_id;
    action = request.action;
    target = request.target;
    risk_level = request.risk_level;
    reason = request.reason;
    status = pending;
    decided_by = none;
  })
  transition_task task_id waiting_for_approval
  commit
  pure id

-- `ApprovalService.get_approval`.
unfoldable pub get_approval : ℕ → Action Session Approval
get_approval id = do or_raise (← gets (λ s. lookup id s.now.approvals)) validation_error

abbrev pub is_pending : ApprovalStatus → Bool
is_pending pending = true
is_pending _ = false

-- The newest pending approval of a task, where the rows stand in the order of `created_at`.
unfoldable pub newest_pending : ℕ → Option ℕ → Table Approval → Option ℕ
newest_pending task_id found [] = found
newest_pending task_id found ((id, row) ∷ rows) =
    newest_pending task_id
      (if row.task_id == task_id && is_pending row.status then some id else found) rows

-- `ApprovalService.get_pending_for_task`, which returns the row; here its key.
unfoldable pub get_pending_for_task : ℕ → Action Session ℕ
get_pending_for_task task_id = do
  or_raise (← gets (λ s. newest_pending task_id none s.now.approvals)) validation_error

-- `ApprovalDecision` of app/schemas/approval.py.
pub record ApprovalDecision : Type 0 where
  pub approved : Bool
  pub decided_by : Option String

-- `ApprovalService.decide`.
unfoldable pub decide : ℕ → ApprovalDecision → Action Session Approval
decide id decision = do
  approval ← get_approval id
  let row = record approval {
    status = if decision.approved then ApprovalStatus.approved else rejected;
    decided_by = decision.decided_by;
  }
  put_approval id row
  transition_task row.task_id (if decision.approved then executing else cancelled)
  commit
  pure row

-- The handler `decide_approval` of app/api/routes/approvals.py.
unfoldable pub decide_approval : ℕ → ApprovalDecision → Action Session Approval
decide_approval task_id decision = do id ← get_pending_for_task task_id; decide id decision
