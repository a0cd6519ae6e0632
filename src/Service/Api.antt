-- ===== src/Service/Api.antt =====
-- The handlers of app/api/routes/tasks.py and app/api/routes/approvals.py behind the request-scoped
-- session of app/db/session.py: each request has a session of its own, and what it has not
-- committed when it ends is lost.
pub mod Laws
use agent_operator.Prelude.{ℕ, String, Option, List, [], ◌∷◌, Action, pure, ◌>>=◌, ◌>>◌}
use agent_operator.Store.{Database, Session}
use agent_operator.Text.{Text}
use agent_operator.Service.{
  ApprovalDecision, create_task, get_task, cancel_task, get_pending_for_task, decide_approval,
}

pub data Request : Type 0 where
  post_task : Text → Option String → Request
  read_task : ℕ → Request
  cancel : ℕ → Request
  read_approval : ℕ → Request
  decide : ℕ → ApprovalDecision → Request

unfoldable pub handle : Request → Action Session (Unit {0})
handle (post_task instruction user_id) = do _ ← create_task instruction user_id; pure tt
handle (read_task id) = do _ ← get_task id; pure tt
handle (cancel id) = do _ ← cancel_task id; pure tt
handle (read_approval task_id) = do _ ← get_pending_for_task task_id; pure tt
handle (decide task_id decision) = do _ ← decide_approval task_id decision; pure tt

-- `get_db_session`: a session over the database as it stands.
abbrev pub open_session : Database → Session
open_session db = record { now = db; saved = db }

-- The database after a request.
unfoldable pub serve_one : Database → Request → Database
unfolding handle
serve_one db request = (handle request (open_session db)).1.saved

unfoldable pub serve : Database → List Request → Database
serve db [] = db
serve db (request ∷ requests) = serve (serve_one db request) requests
