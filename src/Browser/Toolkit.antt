-- ===== src/Browser/Toolkit.antt =====
-- The tools of app/tools/builtin/browser_toolkit.py.
mod Methods
mod Directory
mod Laws
mod Tests
use agent_operator.Errors.{Error, browser_error}
use agent_operator.Prelude.{
  ℕ, Bool, true, false, not, Option, none, some, List, [], ◌∷◌, ◌==◌, Table, lookup, insert,
  new_key, Result, ok, err, Action, pure, raise, gets, modify, raise_if, or_raise, ◌>>=◌, ◌>>◌,
  if◌then◌else◌,
}
use agent_operator.Text.{Text, codes, is_empty}
use agent_operator.Browser.{
  ℤ, SelectorStrategy, BrowserActionResult, Headless, new_headless, old_headless, not_headless,
  LaunchOptions, Driver,
}
use agent_operator.Browser.Session.{
  BrowserSession, Live, Direction, navigate, inspect, click, type_text, select, extract_text,
  scroll, screenshot, wait_for_selector, download, new_tab, switch_tab, list_tabs,
  close_session_context,
}
use agent_operator.Browser.Manager.{Managed, on_session}

-- The inputs of the tools.
pub data BrowserCall : Type 0 where
  call_navigate : ℕ → Text → ℕ → BrowserCall
  call_inspect : ℕ → BrowserCall
  call_click : ℕ → SelectorStrategy → Text → Option Text → BrowserCall
  call_type : ℕ → SelectorStrategy → Text → Text → Option Text → Bool → BrowserCall
  call_select : ℕ → SelectorStrategy → Text → Text → Option Text → BrowserCall
  call_extract : ℕ → Option Text → ℕ → BrowserCall
  call_scroll : ℕ → Direction → ℤ → BrowserCall
  call_screenshot : ℕ → BrowserCall
  call_wait : ℕ → SelectorStrategy → Text → Option Text → ℕ → BrowserCall
  call_download : ℕ → SelectorStrategy → Text → Option Text → ℕ → BrowserCall
  call_new_tab : ℕ → Option Text → BrowserCall
  call_switch_tab : ℕ → ℤ → BrowserCall
  call_list_tabs : ℕ → BrowserCall

module _ {W : Type 0} (driver : Driver W) where
  abbrev pub browser_navigate : ℕ → Text → ℕ → Action (Managed W) BrowserActionResult
  browser_navigate id url timeout_ms = on_session driver id (navigate driver url timeout_ms)

  abbrev pub browser_inspect : ℕ → Action (Managed W) BrowserActionResult
  browser_inspect id = on_session driver id (inspect driver)

  abbrev pub browser_click :
      ℕ → SelectorStrategy → Text → Option Text → Action (Managed W) BrowserActionResult
  browser_click id strategy value role = on_session driver id (click driver strategy value role)

  abbrev pub browser_type :
      ℕ
      → SelectorStrategy
      → Text
      → Text
      → Option Text
      → Bool
      → Action (Managed W) BrowserActionResult
  browser_type id strategy value content role clear =
      on_session driver id (type_text driver strategy value content role clear)

  abbrev pub browser_select :
      ℕ → SelectorStrategy → Text → Text → Option Text → Action (Managed W) BrowserActionResult
  browser_select id strategy value option role =
      on_session driver id (select driver strategy value option role)

  abbrev pub browser_extract : ℕ → Option Text → ℕ → Action (Managed W) BrowserActionResult
  browser_extract id selector max_chars =
      on_session driver id (extract_text driver selector max_chars)

  abbrev pub browser_scroll : ℕ → Direction → ℤ → Action (Managed W) BrowserActionResult
  browser_scroll id direction pixels = on_session driver id (scroll driver direction pixels)

  abbrev pub browser_screenshot : ℕ → Action (Managed W) BrowserActionResult
  browser_screenshot id = on_session driver id (screenshot driver)

  abbrev pub browser_wait :
      ℕ → SelectorStrategy → Text → Option Text → ℕ → Action (Managed W) BrowserActionResult
  browser_wait id strategy value role timeout_ms =
      on_session driver id (wait_for_selector driver strategy value role timeout_ms)

  abbrev pub browser_download :
      ℕ → SelectorStrategy → Text → Option Text → ℕ → Action (Managed W) BrowserActionResult
  browser_download id strategy value role timeout_ms =
      on_session driver id (download driver strategy value role timeout_ms)

  abbrev pub browser_new_tab : ℕ → Option Text → Action (Managed W) BrowserActionResult
  browser_new_tab id url = on_session driver id (new_tab driver url)

  abbrev pub browser_switch_tab : ℕ → ℤ → Action (Managed W) BrowserActionResult
  browser_switch_tab id index = on_session driver id (switch_tab driver index)

  abbrev pub browser_list_tabs : ℕ → Action (Managed W) BrowserActionResult
  browser_list_tabs id = on_session driver id (list_tabs driver)

  -- The call of a tool.
  unfoldable pub execute_browser : BrowserCall → Action (Managed W) BrowserActionResult
  execute_browser (call_navigate id url timeout_ms) = browser_navigate id url timeout_ms
  execute_browser (call_inspect id) = browser_inspect id
  execute_browser (call_click id strategy value role) = browser_click id strategy value role
  execute_browser (call_type id strategy value content role clear) =
      browser_type id strategy value content role clear
  execute_browser (call_select id strategy value option role) =
      browser_select id strategy value option role
  execute_browser (call_extract id selector max_chars) = browser_extract id selector max_chars
  execute_browser (call_scroll id direction pixels) = browser_scroll id direction pixels
  execute_browser (call_screenshot id) = browser_screenshot id
  execute_browser (call_wait id strategy value role timeout_ms) =
      browser_wait id strategy value role timeout_ms
  execute_browser (call_download id strategy value role timeout_ms) =
      browser_download id strategy value role timeout_ms
  execute_browser (call_new_tab id url) = browser_new_tab id url
  execute_browser (call_switch_tab id index) = browser_switch_tab id index
  execute_browser (call_list_tabs id) = browser_list_tabs id
