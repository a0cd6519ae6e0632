-- ===== src/Browser/Toolkit/Directory.antt =====
-- The manager as a directory: which context stands under the id of a session.
use mathlib.Core.Option
use agent_operator.Prelude.{
  ℕ, ◌≡◌, arith, ◌⊎◌, Option, none, some, ◌==◌, Table, lookup, insert, lookup-insert, Result, ok,
  err, Action, pure, ◌>>=◌, ◌>>◌, if◌then◌else◌,
}
use agent_operator.Browser.{BrowserActionResult, Driver}
use agent_operator.Browser.Session.{BrowserSession}
use agent_operator.Browser.Manager.{
  BrowserSettings, Managed, delete, stop_manager, open_session, close_session,
}
use agent_operator.Browser.Toolkit.{BrowserCall, execute_browser}
use agent_operator.Browser.Manager.Sessions.{lookup-delete}

-- What the users of the manager ask of it.
pub data Request : Type 0 where
  opening : BrowserSettings → Request
  closing : ℕ → Request
  stopping : Request
  acting : BrowserCall → Request

pub data Reply : Type 0 where
  opened : ℕ → Reply
  done : Reply
  acted : BrowserActionResult → Reply

-- An abstract directory: the context under an id.
abbrev pub Directory : Type 0
Directory = ℕ → Option ℕ

abbrev pub Unchanged : Directory → Directory → Type 0
Unchanged d d' = (id : ℕ) → d' id ≡ d id

-- The directory after a request, by the result of the request.
abbrev pub Promise : Request → Directory → Result Reply → Directory → Type 0
Promise (opening settings) d (ok (opened id)) d' =
    (d id ≡ none) × ((context : ℕ) × ((j : ℕ) → d' j ≡ (if j == id then some context else d j)))
Promise (opening settings) d (ok reply) d' = ⊥
Promise (opening settings) d (err e) d' = Unchanged d d'
Promise (closing id) d r d' = (j : ℕ) → d' j ≡ (if j == id then none else d j)
Promise stopping d (ok reply) d' = (id : ℕ) → d' id ≡ none
Promise stopping d (err e) d' = ((id : ℕ) → d' id ≡ none) ⊎ Unchanged d d'
Promise (acting call) d r d' = Unchanged d d'

abbrev pub context_in : Table BrowserSession → Directory
context_in table id = Option.map (λ session. session.context) (lookup id table)

module _ {W : Type 0} where
  abbrev pub view : Managed W → Directory
  view state = context_in state.sessions

pub context_in-insert :
    (id : ℕ) (session : BrowserSession) (table : Table BrowserSession) (j : ℕ)
    → context_in (insert id session table) j
      ≡ (if j == id then some session.context else context_in table j)
context_in-insert id session table j = rw (lookup-insert j id session table) (ground arith)

pub context_in-reinsert :
    (id : ℕ) (old new : BrowserSession) (table : Table BrowserSession)
    → lookup id table ≡ some old
    → new.context ≡ old.context
    → (j : ℕ) → context_in (insert id new table) j ≡ context_in table j
context_in-reinsert id old new table found same j =
    rw (context_in-insert id new table j) (ground (arith, found, same))

pub context_in-delete :
    (id : ℕ) (table : Table BrowserSession) (j : ℕ)
    → context_in (delete id table) j ≡ (if j == id then none else context_in table j)
context_in-delete id table j = rw (lookup-delete j id table) (ground arith)

module _ {W : Type 0} (driver : Driver W) where
  unfoldable pub serve : Request → Action (Managed W) Reply
  serve (opening settings) = do id ← open_session driver settings; pure (opened id)
  serve (closing id) = do close_session driver id; pure done
  serve stopping = do stop_manager driver; pure done
  serve (acting call) = do r ← execute_browser driver call; pure (acted r)
