-- ===== src/Browser/Toolkit/Methods.antt =====
-- What the tools raise.
use agent_operator.Errors.{Error, browser_error}
use agent_operator.Prelude.{ℕ, ◌≡◌, Result, ok, err, Action}
use agent_operator.Prelude.Triple.{Ends}
use agent_operator.Browser.{Driver}
use agent_operator.Browser.Session.{BrowserSession, Live}
use agent_operator.Browser.Session.Laws.Errors as Errors
use agent_operator.Browser.Session.Laws.Errors.{Tame, Tame-bind, tame_rules}
use agent_operator.Browser.Manager.{Managed, get_session, within, on_session}
use agent_operator.Browser.Toolkit.{
  BrowserCall, execute_browser, call_navigate, call_inspect, call_click, call_type, call_select,
  call_extract, call_scroll, call_screenshot, call_wait, call_download, call_new_tab,
  call_switch_tab, call_list_tabs,
}

-- The calls whose method wraps what Playwright raises.
abbrev pub IsWrapped : BrowserCall → Type 0
IsWrapped (call_screenshot _) = ⊥
IsWrapped _ = Unit

module _ {W : Type 0} (driver : Driver W) where
  get_session-Tame : (id : ℕ) → Tame (get_session driver id)
  unfolding get_session
  get_session-Tame id = search tame_rules

  elsewhere :
      {A : Type 0} (r : Result A) (live : Live W) (state : Managed W)
      → Ends (λ _ _. Unit {0}) (λ e _. e ≡ browser_error) r live
      → Ends (λ _ _. Unit {0}) (λ e _. e ≡ browser_error) r state
  elsewhere (ok a) live state h = h
  elsewhere (err e) live state h = h

  within-Tame :
      {A : Type 0} (id : ℕ) (session : BrowserSession) (m : Action (Live W) A)
      → Tame m
      → Tame (within driver id session m)
  unfolding within
  within-Tame id session m t = record {
    at = record {
      at = λ state h.
          elsewhere (m _).0 _ _ (t.at.at (record { world = state.world; session = session }) h);
    };
  }

  on_session-Tame :
      {A : Type 0} (id : ℕ) (m : Action (Live W) A) → Tame m → Tame (on_session driver id m)
  unfolding on_session
  on_session-Tame id m t =
      Tame-bind _ _ (get_session-Tame id) (λ session. within-Tame id session m t)

  execute_browser-Tame : (call : BrowserCall) → IsWrapped call → Tame (execute_browser driver call)
  unfolding execute_browser
  execute_browser-Tame (call_navigate id url timeout_ms) h =
      on_session-Tame id _ (Errors.navigate-Tame driver url timeout_ms)
  execute_browser-Tame (call_inspect id) h = on_session-Tame id _ (Errors.inspect-Tame driver)
  execute_browser-Tame (call_click id strategy value role) h =
      on_session-Tame id _ (Errors.click-Tame driver strategy value role)
  execute_browser-Tame (call_type id strategy value content role clear) h =
      on_session-Tame id _ (Errors.type_text-Tame driver strategy value content role clear)
  execute_browser-Tame (call_select id strategy value option role) h =
      on_session-Tame id _ (Errors.select-Tame driver strategy value option role)
  execute_browser-Tame (call_extract id selector max_chars) h =
      on_session-Tame id _ (Errors.extract_text-Tame driver selector max_chars)
  execute_browser-Tame (call_scroll id direction pixels) h =
      on_session-Tame id _ (Errors.scroll-Tame driver direction pixels)
  execute_browser-Tame (call_screenshot id) h = absurd h
  execute_browser-Tame (call_wait id strategy value role timeout_ms) h =
      on_session-Tame id _ (Errors.wait_for_selector-Tame driver strategy value role timeout_ms)
  execute_browser-Tame (call_download id strategy value role timeout_ms) h =
      on_session-Tame id _ (Errors.download-Tame driver strategy value role timeout_ms)
  execute_browser-Tame (call_new_tab id url) h =
      on_session-Tame id _ (Errors.new_tab-Tame driver url)
  execute_browser-Tame (call_switch_tab id index) h =
      on_session-Tame id _ (Errors.switch_tab-Tame driver index)
  execute_browser-Tame (call_list_tabs id) h = on_session-Tame id _ (Errors.list_tabs-Tame driver)

  only_browser_error :
      {A : Type 0} (r : Result A) (state : Managed W) (e : Error)
      → Ends (λ _ _. Unit {0}) (λ e _. e ≡ browser_error) r state
      → r ≡ err e
      → e ≡ browser_error
  only_browser_error r state e h raised = rw raised at h

  -- Except for the screenshot, whatever exception a tool of the browser raises is a `BrowserError`.
  pub execute_browser_error :
      (call : BrowserCall) (state : Managed W) (e : Error)
      → IsWrapped call
      → (execute_browser driver call state).0 ≡ err e
      → e ≡ browser_error
  execute_browser_error call state e h raised =
      only_browser_error _ _ e ((execute_browser-Tame call h).at.at state tt) raised
