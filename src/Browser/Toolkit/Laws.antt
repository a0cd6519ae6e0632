-- ===== src/Browser/Toolkit/Laws.antt =====
-- The refinement of the directory by the manager.
use mathlib.Core.Option
use agent_operator.Errors.{Error}
use agent_operator.Prelude.{
  ℕ, ◌≡◌, refl, ap, ◌∙◌, inl, inr, Option-cases, some, [], Table, lookup, lookup-new_key, Result,
  ok, err, Action, ◌>>=◌,
}
use agent_operator.Prelude.Keeps.{IsPreorder, Keeps, Keeps-seq, Keeps-pure}
use agent_operator.Prelude.Triple.{Triple, Ends, Triple-weaken, Triple-seq, Triple-pure}
use agent_operator.Browser.{Driver}
use agent_operator.Browser.Session.{BrowserSession, Live}
use agent_operator.Browser.Session.Laws.{Stays}
use agent_operator.Browser.Session.Laws as Session
use agent_operator.Browser.Manager.{BrowserSettings, Managed, get_session, within, on_session}
use agent_operator.Browser.Toolkit.{
  BrowserCall, execute_browser, call_navigate, call_inspect, call_click, call_type, call_select,
  call_extract, call_scroll, call_screenshot, call_wait, call_download, call_new_tab,
  call_switch_tab, call_list_tabs,
}
use agent_operator.Browser.Toolkit.Directory.{
  Request, opening, closing, stopping, acting, Reply, opened, done, acted, Unchanged, Promise,
  context_in, view, context_in-insert, context_in-reinsert, context_in-delete, serve,
}
use agent_operator.Browser.Manager.Sessions.{
  Has, Stopped, open_session-Has, stop_manager-Has, close_session-Has,
}

module _ {W : Type 0} (driver : Driver W) where
  -- What a request promises, as postconditions.
  module _ (request : Request) (state : Managed W) where
    abbrev Returned : Reply → Managed W → Type 0
    Returned reply state' = Promise request (view state) (ok reply) (view state')

    abbrev Raised : Error → Managed W → Type 0
    Raised e state' = Promise request (view state) (err e) (view state')

    Promise-result :
        (r : Result Reply) (state' : Managed W)
        → Ends Returned Raised r state'
        → Promise request (view state) r (view state')
    Promise-result (ok reply) state' h = h
    Promise-result (err e) state' h = h

  view-Has :
      (table : Table BrowserSession) (state : Managed W)
      → Has driver table state
      → (j : ℕ) → view state j ≡ context_in table j
  view-Has table state h j = ap (λ t. context_in t j) h

  serve_opening :
      (settings : BrowserSettings) (state : Managed W)
      → Triple
          (Has driver state.sessions)
          (serve driver (opening settings))
          (Returned (opening settings) state)
          (Raised (opening settings) state)
  unfolding serve
  serve_opening settings state =
      Triple-seq
        (Triple-weaken _ (open_session-Has driver state.sessions settings) (λ s h. h) (λ _ s h. h)
          (λ e s h. view-Has _ s h))
        λ id. Triple-pure (opened id) (λ s h. (
          rw h.0 (ap (Option.map _) (lookup-new_key state.sessions)),
          (h.1.0.context, λ j. view-Has _ s h.1.1 j ∙ context_in-insert id h.1.0 state.sessions j),
        ))

  serve_closing :
      (id : ℕ) (state : Managed W)
      → Triple
          (Has driver state.sessions)
          (serve driver (closing id))
          (Returned (closing id) state)
          (Raised (closing id) state)
  unfolding serve
  serve_closing id state =
      Triple-seq
        (Triple-weaken _ (close_session-Has driver state.sessions id) (λ s h. h) (λ _ s h. h)
          (λ e s h j. view-Has _ s h j ∙ context_in-delete id state.sessions j))
        λ _. Triple-pure done (λ s h j. view-Has _ s h j ∙ context_in-delete id state.sessions j)

  stopped :
      (state : Managed W) (e : Error) (state' : Managed W)
      → Stopped driver state.sessions e state'
      → Raised stopping state e state'
  unfolding lookup
  stopped state e state' (inl none_left) = inl (view-Has [] state' none_left)
  stopped state e state' (inr same) = inr (view-Has state.sessions state' same)

  serve_stopping :
      (state : Managed W)
      → Triple
          (Has driver state.sessions)
          (serve driver stopping)
          (Returned stopping state)
          (Raised stopping state)
  unfolding serve lookup
  serve_stopping state =
      Triple-seq
        (Triple-weaken _ (stop_manager-Has driver state.sessions) (λ s h. h) (λ _ s h. h)
          (stopped state))
        λ _. Triple-pure done (λ s h. view-Has [] s h)

  within-Unchanged :
      {A : Type 0} (id : ℕ) (session : BrowserSession) (m : Action (Live W) A) (state : Managed W)
      → Keeps Stays m
      → lookup id state.sessions ≡ some session
      → Unchanged (view state) (view (within driver id session m state).1)
  unfolding within
  within-Unchanged id session m state keeps found =
      context_in-reinsert id session _ state.sessions found
        (keeps.at (record { world = state.world; session = session })).context

  Unchanged-preorder : IsPreorder (λ (s t : Managed W). Unchanged (view s) (view t))
  Unchanged-preorder = record { same = λ s j. refl; step = λ s t u p q j. q j ∙ p j }

  on_session-Unchanged :
      {A : Type 0} (id : ℕ) (m : Action (Live W) A)
      → Keeps Stays m
      → Keeps (λ s t. Unchanged (view s) (view t)) (on_session driver id m)
  unfolding on_session get_session ◌>>=◌
  on_session-Unchanged id m keeps = record {
    at = λ state. elim (Option-cases (lookup id state.sessions)) [
      | inl missing ↦ λ j. rw missing refl
      | inr (session, found) ↦ λ j. rw found (within-Unchanged id session m state keeps found j)
    ];
  }

  execute_browser-Unchanged :
      (call : BrowserCall)
      → Keeps (λ s t. Unchanged (view s) (view t)) (execute_browser driver call)
  unfolding execute_browser
  execute_browser-Unchanged (call_navigate id url timeout_ms) =
      on_session-Unchanged id _ (Session.navigate-Stays driver url timeout_ms)
  execute_browser-Unchanged (call_inspect id) =
      on_session-Unchanged id _ (Session.inspect-Stays driver)
  execute_browser-Unchanged (call_click id strategy value role) =
      on_session-Unchanged id _ (Session.click-Stays driver strategy value role)
  execute_browser-Unchanged (call_type id strategy value content role clear) =
      on_session-Unchanged id _ (Session.type_text-Stays driver strategy value content role clear)
  execute_browser-Unchanged (call_select id strategy value option role) =
      on_session-Unchanged id _ (Session.select-Stays driver strategy value option role)
  execute_browser-Unchanged (call_extract id selector max_chars) =
      on_session-Unchanged id _ (Session.extract_text-Stays driver selector max_chars)
  execute_browser-Unchanged (call_scroll id direction pixels) =
      on_session-Unchanged id _ (Session.scroll-Stays driver direction pixels)
  execute_browser-Unchanged (call_screenshot id) =
      on_session-Unchanged id _ (Session.screenshot-Stays driver)
  execute_browser-Unchanged (call_wait id strategy value role timeout_ms) =
      on_session-Unchanged id _
        (Session.wait_for_selector-Stays driver strategy value role timeout_ms)
  execute_browser-Unchanged (call_download id strategy value role timeout_ms) =
      on_session-Unchanged id _ (Session.download-Stays driver strategy value role timeout_ms)
  execute_browser-Unchanged (call_new_tab id url) =
      on_session-Unchanged id _ (Session.new_tab-Stays driver url)
  execute_browser-Unchanged (call_switch_tab id index) =
      on_session-Unchanged id _ (Session.switch_tab-Stays driver index)
  execute_browser-Unchanged (call_list_tabs id) =
      on_session-Unchanged id _ (Session.list_tabs-Stays driver)

  acting_result :
      (call : BrowserCall) (state : Managed W)
      → Unchanged (view state) (view (serve driver (acting call) state).1)
  unfolding serve
  acting_result call state =
      (Keeps-seq Unchanged-preorder (execute_browser-Unchanged call)
          (λ r. Keeps-pure Unchanged-preorder (acted r))).at
        state

  -- The manager keeps the promises of a directory. Opening a session puts a context under an id that
  -- had none, or raises and changes nothing; closing one takes its context away, whether or not it
  -- raises; stopping leaves none, and where it raises it leaves none or all; and no tool changes what
  -- stands under any id, whether it returns or raises.
  pub serve-Promise :
      (request : Request) (state : Managed W)
      → Promise request
          (view state)
          (serve driver request state).0
          (view (serve driver request state).1)
  serve-Promise (opening settings) state =
      Promise-result (opening settings) state _ _ ((serve_opening settings state).at state refl)
  serve-Promise (closing id) state =
      Promise-result (closing id) state _ _ ((serve_closing id state).at state refl)
  serve-Promise stopping state =
      Promise-result stopping state _ _ ((serve_stopping state).at state refl)
  serve-Promise (acting call) state = acting_result call state
