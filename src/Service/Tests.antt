-- ===== src/Service/Tests.antt =====
-- The theorems about the two services at a database with one task that waits for an approval.
use agent_operator.Errors.{Error, cancellation_error}
use agent_operator.Prelude.{◌≡◌, ◌⊎◌, refl, true, none, some, [], ◌∷◌, List, lookup, ok, err}
use agent_operator.Policy.{high}
use agent_operator.State.{waiting_for_approval, cancelled, completed}
use agent_operator.State.Diagram.{IsLive, IsTerminal, completed_end}
use agent_operator.Store.{Task, Approval, pending, Database, Session, state_of}
use agent_operator.Service.{ApprovalDecision, cancel_task, decide}
use agent_operator.Service.Follows.{HasMoved}
use agent_operator.Service.Api.{Request, cancel, read_task, serve}
use agent_operator.Service.Api.Laws.{serve-HasMoved, serve_terminal}
use agent_operator.Service.Approvals.{IsDecided, decide_exact}
use agent_operator.Service.Cancel.{cancel_task_exact}

abbrev waiting_task : Task
waiting_task = record {
  instruction = 97 ∷ [];
  state = waiting_for_approval;
  user_id = none;
  plan = none;
  summary = none;
  error = none;
  timeout_seconds = none;
}

abbrev completed_task : Task
completed_task = record waiting_task { state = completed }

abbrev asked : Approval
asked = record {
  task_id = 0;
  action = "post";
  target = "social";
  risk_level = high;
  reason = none;
  status = pending;
  decided_by = none;
}

abbrev small_database : Database
small_database = record {
  tasks = (0, waiting_task) ∷ (1, completed_task) ∷ [];
  approvals = (0, asked) ∷ [];
  agent_runs = [];
}

abbrev small_session : Session
small_session = record { now = small_database; saved = small_database }

abbrev requests : List Request
requests =
    cancel 1
    ∷ Request.decide 0 (record { approved = true; decided_by = none })
    ∷ cancel 0
    ∷ read_task 1
    ∷ []

serve-HasMoved_example : HasMoved waiting_task (lookup 0 (serve small_database requests).tasks)
unfolding lookup
serve-HasMoved_example = serve-HasMoved small_database requests 0 waiting_task refl

serve_terminal_example :
    (t' : Task) × (lookup 1 (serve small_database requests).tasks ≡ some t')
    × (t'.state ≡ completed)
unfolding lookup
serve_terminal_example = serve_terminal small_database requests 1 completed_task refl completed_end

abbrev yes : ApprovalDecision
yes = record { approved = true; decided_by = some "user" }

decide_exact_example :
    let (r, s') = decide 0 yes small_session in
    ((row : Approval) × (r ≡ ok row) × IsDecided 0 yes row s')
    ⊎ ((e : Error) × (r ≡ err e) × (s'.saved ≡ small_database))
decide_exact_example = decide_exact 0 yes small_session

cancel_task_exact_example :
    let (r, s') = cancel_task 0 small_session in
    (IsLive waiting_for_approval
      × (r ≡ ok (record waiting_task { state = cancelled }))
      × (state_of 0 s'.saved ≡ some cancelled))
    ⊎ (IsTerminal waiting_for_approval × (r ≡ err cancellation_error) × (s' ≡ small_session))
unfolding lookup
cancel_task_exact_example = cancel_task_exact 0 waiting_task small_session refl
