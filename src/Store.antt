-- ===== src/Store.antt =====
-- app/db/models/: the rows of the database, and one SQLAlchemy session over it.
use mathlib.Core.Option
use agent_operator.Errors.{Error}
use agent_operator.Prelude.{ℕ, String, Bool, Option, List, Table, Action, ok, insert, lookup}
use agent_operator.Policy.{RiskLevel}
use agent_operator.State.{TaskState}
use agent_operator.Text.{Text}

-- `StepKind` of app/agents/planner.py.
pub data StepKind : Type 0 where
  research browser content fact_check social verify local_system : StepKind

pub record PlanStep : Type 0 where
  pub name : String
  pub agent : StepKind
  pub description : Text
  pub requires_approval : Bool

abbrev pub Plan : Type 0
Plan = List PlanStep

-- An entry of `OrchestratorState.step_outputs`.
pub record StepOutput : Type 0 where
  pub step : String
  pub agent : StepKind
  pub success : Bool

-- What `_persist_result` writes into `Task.result` beside the plan.
pub record Summary : Type 0 where
  pub iterations : ℕ
  pub tool_calls : ℕ
  pub steps : List StepOutput

-- The JSON object `Task.result` holds at most a plan and a summary; of `Task.error` the class of
-- the exception is kept.
pub record Task : Type 0 where
  pub instruction : Text
  pub state : TaskState
  pub user_id : Option String
  pub plan : Option Plan
  pub summary : Option Summary
  pub error : Option Error
  pub timeout_seconds : Option ℕ

pub data ApprovalStatus : Type 0 where
  pending approved rejected : ApprovalStatus

pub record Approval : Type 0 where
  pub task_id : ℕ
  pub action : String
  pub target : String
  pub risk_level : RiskLevel
  pub reason : Option Text
  pub status : ApprovalStatus
  pub decided_by : Option String

pub data RunStatus : Type 0 where
  running success failed : RunStatus

pub record AgentRun : Type 0 where
  pub task_id : ℕ
  pub agent_name : String
  pub status : RunStatus

pub record Database : Type 0 where
  pub tasks : Table Task
  pub approvals : Table Approval
  pub agent_runs : Table AgentRun

-- A session: the rows as the session sees them, and as they were last committed.
pub record Session : Type 0 where
  pub now : Database
  pub saved : Database

-- `session.commit()`.
unfoldable pub commit : Action Session (Unit {0})
commit s = (ok tt, record s { saved = s.now })

abbrev pub update : Session → Database → Session
update s db = record s { now = db }

unfoldable pub put_task : ℕ → Task → Action Session (Unit {0})
put_task id task s = (ok tt, update s (record s.now { tasks = insert id task s.now.tasks }))

unfoldable pub put_approval : ℕ → Approval → Action Session (Unit {0})
put_approval id row s =
    (ok tt, update s (record s.now { approvals = insert id row s.now.approvals }))

unfoldable pub put_run : ℕ → AgentRun → Action Session (Unit {0})
put_run id row s = (ok tt, update s (record s.now { agent_runs = insert id row s.now.agent_runs }))

abbrev pub state_of : ℕ → Database → Option TaskState
state_of id db = Option.map (λ t. t.state) (lookup id db.tasks)
