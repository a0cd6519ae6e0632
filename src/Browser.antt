-- ===== src/Browser.antt =====
-- app/schemas/browser.py and app/browser/selectors.py: the actions on a page and their results. The
-- calls of Playwright are a parameter, over a state of its own.
pub mod Session
pub mod Manager
pub mod Toolkit
use agent_operator.Errors.{value_error}
use agent_operator.Prelude.{
  ℕ, zero, suc, Bool, Option, none, some, String, List, [], ◌∷◌, ◌++◌, Result, ok, err, Action,
}
use agent_operator.Text.{Text, codes}

-- `negsuc n` is -(n + 1).
pub data ℤ : Type 0 where
  pos : ℕ → ℤ
  negsuc : ℕ → ℤ

abbrev pub negate : ℤ → ℤ
negate (pos zero) = pos 0
negate (pos (suc n)) = negsuc n
negate (negsuc n) = pos (suc n)

pub data BrowserActionType : Type 0 where
  navigate inspect click type select scroll wait extract screenshot download new_tab switch_tab
        list_tabs :
      BrowserActionType

pub data SelectorStrategy : Type 0 where
  aria_role label test_attribute css text xpath coordinates : SelectorStrategy

-- An entry of `list_tabs`.
pub record Tab : Type 0 where
  pub index : ℕ
  pub url : Text
  pub title : Text

-- `details`, by the action that gives them.
pub data Details : Type 0 where
  no_details : Details
  page_details : Text → ℕ × ℕ → List Text → ℕ → List (Text × Text) → Details
  byte_count : ℕ → Details
  extracted : Text → Option Text → Bool → Details
  chosen : Text → Details
  downloaded : Text → Option Text → ℕ → Details
  in_session : ℕ → Details
  active_tab : ℤ → Details
  open_tabs : List Tab → ℤ → Details

pub record BrowserActionResult : Type 0 where
  pub success : Bool
  pub action : BrowserActionType
  pub target : Option Text
  pub url : Option Text
  pub details : Details

-- Playwright's locators.
pub data Locator : Type 0 where
  by_role : Text → Text → Locator
  by_label : Text → Locator
  by_selector : Text → Locator
  by_text : Text → Locator

-- `resolve_locator`.
unfoldable pub resolve_locator : SelectorStrategy → Text → Option Text → Result Locator
resolve_locator aria_role value none = err value_error
resolve_locator aria_role value (some role) = ok (by_role role value)
resolve_locator label value role = ok (by_label value)
resolve_locator test_attribute value role =
    ok (by_selector (codes "[data-testid='" ++ (value ++ codes "']")))
resolve_locator css value role = ok (by_selector value)
resolve_locator text value role = ok (by_text value)
resolve_locator xpath value role = ok (by_selector (codes "xpath=" ++ value))
resolve_locator coordinates value role = err value_error

pub record Download : Type 0 where
  pub suggested_filename : Text
  pub path : Option Text
  pub size : ℕ

-- The launch options of `BrowserSessionManager.start`.
pub data Headless : Type 0 where
  new_headless old_headless not_headless : Headless

pub record LaunchOptions : Type 0 where
  pub channel : Option Text
  pub executable_path : Option Text
  pub headless : Headless

-- Playwright, with a number for each context and each page.
pub record Driver (W : Type 0) : Type 0 where
  pub start_playwright : Action W (Unit {0})
  pub stop_playwright : Action W (Unit {0})
  pub launch : LaunchOptions → Action W (Unit {0})
  pub close_browser : Action W (Unit {0})
  pub new_context : Action W ℕ
  pub set_default_timeouts : ℕ → ℕ → ℕ → Action W (Unit {0})
  pub close_context : ℕ → Action W (Unit {0})
  pub new_page : ℕ → Action W ℕ
  pub close_page : ℕ → Action W (Unit {0})
  pub pages : ℕ → W → List ℕ
  pub url_of : ℕ → W → Text
  pub is_closed : ℕ → W → Bool
  pub viewport_size : ℕ → W → Option (ℕ × ℕ)
  pub goto : ℕ → Text → ℕ → Action W (Unit {0})
  pub title_of : ℕ → Action W Text
  pub headings : ℕ → Action W (List Text)
  pub interactive_count : ℕ → Action W ℕ
  pub links : ℕ → Action W (List (Text × Text))
  pub scroll_by : ℕ → ℤ → ℤ → Action W (Unit {0})
  pub take_screenshot : ℕ → Action W (List ℕ)
  pub inner_text : ℕ → Text → Action W Text
  pub click_on : ℕ → Locator → Action W (Unit {0})
  pub fill_in : ℕ → Locator → Text → Action W (Unit {0})
  pub type_into : ℕ → Locator → Text → Action W (Unit {0})
  pub select_option : ℕ → Locator → Text → Action W (Unit {0})
  pub wait_for : ℕ → Locator → ℕ → Action W (Unit {0})
  -- A click under `expect_download`, with the file that it brings and its size.
  pub click_for_download : ℕ → Locator → ℕ → Action W Download
  -- `page.on("crash", …)` and `page.on("load", …)`.
  pub listen : ℕ → Action W (Unit {0})
