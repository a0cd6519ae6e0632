-- ===== src/Service/Api/Laws.antt =====
-- What the requests of clients can do to the committed rows.
use agent_operator.Prelude.{ℕ, ◌≡◌, some, List, [], ◌∷◌, lookup}
use agent_operator.Prelude.Keeps.{Keeps, keeps_rules}
use agent_operator.State.Diagram.{IsTerminal, IsTerminal-absorbs}
use agent_operator.Store.{Database, Task}
use agent_operator.Service.{get_pending_for_task}
use agent_operator.Service.Follows.{
  Evolves, Evolves-refl, Evolves-trans, HasMoved, Follows, Follows-preorder, create_task-Follows,
  get_task-Follows, cancel_task-Follows, decide_approval-Follows,
}
use agent_operator.Service.Api.{
  Request, post_task, read_task, cancel, read_approval, decide, handle, open_session, serve_one,
  serve,
}

handle-Follows : (request : Request) → Keeps Follows (handle request)
unfolding handle get_pending_for_task
handle-Follows (post_task instruction user_id) =
    search (keeps_rules, Follows-preorder, create_task-Follows)
handle-Follows (read_task id) = search (keeps_rules, Follows-preorder, get_task-Follows)
handle-Follows (cancel id) = search (keeps_rules, Follows-preorder, cancel_task-Follows)
handle-Follows (read_approval task_id) = search (keeps_rules, Follows-preorder)
handle-Follows (decide task_id decision) =
    search (keeps_rules, Follows-preorder, decide_approval-Follows)

serve_one-Evolves :
    (db : Database) (request : Request) → Evolves db.tasks (serve_one db request).tasks
unfolding serve_one
serve_one-Evolves db request =
    ((handle-Follows request).at (open_session db)).committed db.tasks (Evolves-refl db.tasks)
      (Evolves-refl db.tasks)

pub serve-Evolves :
    (db : Database) (requests : List Request) → Evolves db.tasks (serve db requests).tasks
unfolding serve
serve-Evolves db [] = Evolves-refl db.tasks
serve-Evolves db (request ∷ requests) =
    Evolves-trans (serve_one-Evolves db request) (serve-Evolves (serve_one db request) requests)

-- Whatever requests are served, every committed task is still there afterwards, in a state that
-- the transition diagram leads to from the one it had.
pub serve-HasMoved :
    (db : Database) (requests : List Request) (id : ℕ) (t : Task)
    → lookup id db.tasks ≡ some t
    → HasMoved t (lookup id (serve db requests).tasks)
serve-HasMoved db requests = (serve-Evolves db requests).moved

-- A task that is completed, failed, cancelled or timed out stays so, whatever requests are served.
pub serve_terminal :
    (db : Database) (requests : List Request) (id : ℕ) (t : Task)
    → lookup id db.tasks ≡ some t
    → IsTerminal t.state
    → (t' : Task) × (lookup id (serve db requests).tasks ≡ some t') × (t'.state ≡ t.state)
serve_terminal db requests id t found over =
    let (t', found', way) = serve-HasMoved db requests id t found in
    (t', found', IsTerminal-absorbs over way)
