-- ===== src/Browser/Manager.antt =====
-- `BrowserSessionManager` of app/browser/session.py.
pub mod Sessions
use agent_operator.Errors.{Error, browser_error}
use agent_operator.Prelude.{
  ℕ, Bool, true, false, not, Option, none, some, List, [], ◌∷◌, ◌==◌, Table, lookup, insert,
  new_key, Result, ok, err, Action, pure, raise, gets, modify, raise_if, or_raise, ◌>>=◌, ◌>>◌,
  if◌then◌else◌,
}
use agent_operator.Text.{Text, codes, is_empty}
use agent_operator.Browser.{
  ℤ, SelectorStrategy, BrowserActionResult, Headless, new_headless, old_headless, not_headless,
  LaunchOptions, Driver,
}
use agent_operator.Browser.Session.{
  BrowserSession, Live, Direction, navigate, inspect, click, type_text, select, extract_text,
  scroll, screenshot, wait_for_selector, download, new_tab, switch_tab, list_tabs,
  close_session_context,
}

pub data BrowserChannel : Type 0 where
  chromium chrome msedge brave : BrowserChannel

pub data HeadlessMode : Type 0 where
  new old off : HeadlessMode

pub record BrowserSettings : Type 0 where
  pub channel : BrowserChannel
  pub executable_path : Option Text
  pub headless_mode : HeadlessMode
  pub default_timeout_ms : ℕ
  pub navigation_timeout_ms : ℕ

-- The manager with the state of Playwright. Of the two handles it counts whether they are set.
pub record Managed (W : Type 0) : Type 0 where
  pub world : W
  pub has_playwright : Bool
  pub has_browser : Bool
  pub sessions : Table BrowserSession

unfoldable pub delete : ℕ → Table BrowserSession → Table BrowserSession
delete id [] = []
delete id ((key, session) ∷ rows) =
    let rest = delete id rows in if key == id then rest else (key, session) ∷ rest

abbrev pub channel_option : BrowserChannel → Option Text
channel_option chromium = none
channel_option chrome = some (codes "chrome")
channel_option msedge = some (codes "msedge")
channel_option brave = some (codes "brave")

abbrev pub headless_option : HeadlessMode → Headless
headless_option new = new_headless
headless_option old = old_headless
headless_option off = not_headless

abbrev pub path_option : Option Text → Option Text
path_option none = none
path_option (some path) = if is_empty path then none else some path

unfoldable pub launch_options : BrowserSettings → LaunchOptions
launch_options settings = record {
  channel = channel_option settings.channel;
  executable_path = path_option settings.executable_path;
  headless = headless_option settings.headless_mode;
}

module _ {W : Type 0} (driver : Driver W) where
  -- A call of Playwright by the manager.
  unfoldable pub manage : {A : Type 0} → Action W A → Action (Managed W) A
  manage m state = let (r, w) = m state.world in (r, record state { world = w })

  -- `start`.
  unfoldable pub start_manager : BrowserSettings → Action (Managed W) (Unit {0})
  start_manager settings = do
    manage driver.start_playwright
    modify (λ state. record state { has_playwright = true })
    manage (driver.launch (launch_options settings))
    modify (λ state. record state { has_browser = true })

  -- The loop of `stop`.
  unfoldable pub close_all : Table BrowserSession → Action W (Unit {0})
  close_all [] = pure tt
  close_all ((id, session) ∷ rows) = do driver.close_context session.context; close_all rows

  -- `stop`. The handles stay set.
  unfoldable pub stop_manager : Action (Managed W) (Unit {0})
  stop_manager = do
    state ← gets (λ state. state)
    manage (close_all state.sessions)
    modify (λ state. record state { sessions = [] })
    (if state.has_browser then manage driver.close_browser else pure tt)
    (if state.has_playwright then manage driver.stop_playwright else pure tt)

  -- `open_session`, which returns the id of the session.
  unfoldable pub open_session : BrowserSettings → Action (Managed W) ℕ
  open_session settings = do
    started ← gets (λ state. state.has_browser)
    raise_if (not started) browser_error
    context ← manage driver.new_context
    manage (
        driver.set_default_timeouts context settings.default_timeout_ms
          settings.navigation_timeout_ms)
    page ← manage (driver.new_page context)
    id ← gets (λ state. new_key state.sessions)
    modify (λ state. record state {
      sessions =
          insert id (record { session_id = id; context = context; page = page; crash_count = 0 })
            state.sessions;
    })
    pure id

  -- `get_session`.
  unfoldable pub get_session : ℕ → Action (Managed W) BrowserSession
  get_session id = do found ← gets (λ state. lookup id state.sessions); or_raise found browser_error

  abbrev pub close_if_open : Option BrowserSession → Action W (Unit {0})
  close_if_open none = pure tt
  close_if_open (some session) = driver.close_context session.context

  -- `close_session`: the session is gone before its context is closed.
  unfoldable pub close_session : ℕ → Action (Managed W) (Unit {0})
  close_session id = do
    found ← gets (λ state. lookup id state.sessions)
    modify (λ state. record state { sessions = delete id state.sessions })
    manage (close_if_open found)

  -- What a method of a session does to the session that the manager has.
  unfoldable pub within :
      {A : Type 0} → ℕ → BrowserSession → Action (Live W) A → Action (Managed W) A
  within id session m state =
      let (r, live) = m (record { world = state.world; session = session }) in
      (r, record state { world = live.world; sessions = insert id live.session state.sessions })

  -- What a tool does: a method of the session that its input names.
  unfoldable pub on_session : {A : Type 0} → ℕ → Action (Live W) A → Action (Managed W) A
  on_session id m = do session ← get_session id; within id session m
