-- ===== src/Browser/Session/Laws.antt =====
-- A session keeps its context, whatever its actions do.
pub mod Errors
use agent_operator.Errors.{Error, browser_error}
use agent_operator.Prelude.{
  ℕ, ◌≡◌, refl, ◌∙◌, arith, Bool, true, false, Option, none, some, List, [], ◌∷◌, Result, ok, err,
  Action, pure, raise, gets, lift, modify, raise_if, catch, ◌>>=◌, ◌>>◌, if◌then◌else◌,
}
use agent_operator.Prelude.Keeps.{IsPreorder, Keeps, keeps_rules}
use agent_operator.Prelude.Triple.{
  Triple, Ends, Triple-pure, Triple-raise, Triple-gets, Triple-seq, Triple-catch,
}
use agent_operator.Text.{Text}
use agent_operator.Browser.{
  ℤ, BrowserActionType, SelectorStrategy, Details, BrowserActionResult, Driver, Locator,
}
use agent_operator.Browser.Session.{
  BrowserSession, Live, Direction, drive, set_page, or_browser_error, report, with_locator,
  with_page, navigate, inspect, click, type_text, screenshot, extract_text, scroll,
  wait_for_selector, select, download, install_crash_handler, new_tab, set_tab, switch_tab,
  list_tabs,
}

module _ {W : Type 0} where
  pub record Stays (l l' : Live W) : Type 0 where
    pub context : l'.session.context ≡ l.session.context
    pub session_id : l'.session.session_id ≡ l.session.session_id

  pub Stays-preorder : IsPreorder Stays
  Stays-preorder = record {
    same = λ l. record { context = refl; session_id = refl };
    step = λ s t u p q. record {
      context = q.context ∙ p.context;
      session_id = q.session_id ∙ p.session_id;
    };
  }

  module _ (driver : Driver W) where
    drive-Stays : {A : Type 0} (m : Action W A) → Keeps Stays (drive driver m)
    unfolding drive
    drive-Stays m = record { at = λ l. record { context = refl; session_id = refl } }

    set_page-Stays : (page : ℕ) → Keeps Stays (set_page driver page)
    unfolding set_page modify
    set_page-Stays page = record { at = λ l. record { context = refl; session_id = refl } }

    ruleset stay_rules = (keeps_rules, Stays-preorder, drive-Stays, set_page-Stays)

    or_browser_error-Stays :
        {A : Type 0} (m : Action (Live W) A)
        → Keeps Stays m
        → Keeps Stays (or_browser_error driver m)
    unfolding or_browser_error
    or_browser_error-Stays m k = search (stay_rules, k)

    report-Stays :
        (action : BrowserActionType) (target : Option Text) (given : Details)
        → Keeps Stays (report driver action target given)
    unfolding report
    report-Stays action target given = search stay_rules

    set_tab-Stays : (page : Option ℕ) → Keeps Stays (set_tab driver page)
    set_tab-Stays none = search stay_rules
    set_tab-Stays (some page) = set_page-Stays page

    ruleset method_rules = (stay_rules, or_browser_error-Stays, report-Stays, set_tab-Stays)

    with_locator-Stays :
        {A : Type 0} (strategy : SelectorStrategy) (value : Text) (role : Option Text)
        (f : ℕ → Locator → Action W A)
        → Keeps Stays (with_locator driver strategy value role f)
    with_locator-Stays strategy value role f = search method_rules depth 12

    ruleset call_rules = (method_rules, with_locator-Stays)

    pub navigate-Stays :
        (url : Text) (timeout_ms : ℕ) → Keeps Stays (navigate driver url timeout_ms)
    unfolding navigate
    navigate-Stays url timeout_ms = search call_rules depth 20

    pub inspect-Stays : Keeps Stays (inspect driver)
    unfolding inspect
    inspect-Stays = search call_rules depth 20

    pub click-Stays :
        (strategy : SelectorStrategy) (value : Text) (role : Option Text)
        → Keeps Stays (click driver strategy value role)
    unfolding click
    click-Stays strategy value role = search call_rules depth 20

    pub type_text-Stays :
        (strategy : SelectorStrategy) (value content : Text) (role : Option Text) (clear : Bool)
        → Keeps Stays (type_text driver strategy value content role clear)
    unfolding type_text
    type_text-Stays strategy value content role clear = search call_rules depth 20

    pub screenshot-Stays : Keeps Stays (screenshot driver)
    unfolding screenshot
    screenshot-Stays = search call_rules depth 20

    pub extract_text-Stays :
        (selector : Option Text) (max_chars : ℕ)
        → Keeps Stays (extract_text driver selector max_chars)
    unfolding extract_text
    extract_text-Stays selector max_chars = search call_rules depth 20

    pub scroll-Stays :
        (direction : Direction) (pixels : ℤ) → Keeps Stays (scroll driver direction pixels)
    unfolding scroll
    scroll-Stays direction pixels = search call_rules depth 20

    pub wait_for_selector-Stays :
        (strategy : SelectorStrategy) (value : Text) (role : Option Text) (timeout_ms : ℕ)
        → Keeps Stays (wait_for_selector driver strategy value role timeout_ms)
    unfolding wait_for_selector
    wait_for_selector-Stays strategy value role timeout_ms = search call_rules depth 20

    pub select-Stays :
        (strategy : SelectorStrategy) (value option : Text) (role : Option Text)
        → Keeps Stays (select driver strategy value option role)
    unfolding select
    select-Stays strategy value option role = search call_rules depth 20

    pub download-Stays :
        (strategy : SelectorStrategy) (value : Text) (role : Option Text) (timeout_ms : ℕ)
        → Keeps Stays (download driver strategy value role timeout_ms)
    unfolding download
    download-Stays strategy value role timeout_ms = search call_rules depth 20

    pub new_tab-Stays : (url : Option Text) → Keeps Stays (new_tab driver url)
    unfolding new_tab install_crash_handler
    new_tab-Stays url = search call_rules depth 20

    pub switch_tab-Stays : (index : ℤ) → Keeps Stays (switch_tab driver index)
    unfolding switch_tab
    switch_tab-Stays index = search call_rules depth 20

    pub list_tabs-Stays : Keeps Stays (list_tabs driver)
    unfolding list_tabs
    list_tabs-Stays = search call_rules depth 20
