-- ===== src/Browser/Session/Laws/Errors.antt =====
-- What the actions of a session raise.
use agent_operator.Errors.{browser_error}
use agent_operator.Prelude.{
  ℕ, ◌≡◌, refl, Bool, Option, none, some, Result, ok, err, Action, pure, raise, gets, handle, catch,
  ◌>>=◌, or_raise,
}
use agent_operator.Prelude.Triple.{
  Triple, Ends, Triple-pure, Triple-raise, Triple-gets, Triple-bind,
}
use agent_operator.Text.{Text}
use agent_operator.Browser.{ℤ, BrowserActionType, SelectorStrategy, Details, Driver, Locator}
use agent_operator.Browser.Session.{
  Live, Direction, or_browser_error, report, with_locator, navigate, inspect, click, type_text,
  extract_text, scroll, wait_for_selector, select, download, new_tab, switch_tab, list_tabs,
}

module _ {S A : Type 0} where
  -- If it raises, it raises a `BrowserError`.
  pub record Tame (m : Action S A) : Type 0 where
    pub at : Triple (λ _. Unit {0}) m (λ _ _. Unit {0}) (λ e _. e ≡ browser_error)

  pub Tame-pure : (a : A) → Tame (pure a)
  Tame-pure a = record { at = Triple-pure a (λ s h. tt) }

  pub Tame-gets : (f : S → A) → Tame (gets f)
  Tame-gets f = record { at = Triple-gets f (λ s h. tt) }

  pub Tame-raise : Tame (raise {A = A} browser_error)
  Tame-raise = record { at = Triple-raise browser_error (λ s h. refl) }

  pub Tame-or_raise : (a : Option A) → Tame (or_raise a browser_error)
  unfolding or_raise
  Tame-or_raise none = record { at = record { at = λ s h. refl } }
  Tame-or_raise (some a) = record { at = record { at = λ s h. tt } }

module _ {S A B : Type 0} where
  pub Tame-bind :
      (m : Action S A) (f : A → Action S B) → Tame m → ((a : A) → Tame (f a)) → Tame (m >>= f)
  Tame-bind m f t u = record { at = Triple-bind m f t.at (λ a. (u a).at) }

pub ruleset tame_rules = (Tame-pure, Tame-gets, Tame-raise, Tame-or_raise, Tame-bind)

module _ {W : Type 0} (driver : Driver W) where
  handled :
      {A : Type 0} (r : Result A) (s : Live W)
      → Ends
          (λ _ _. Unit {0})
          (λ e _. e ≡ browser_error)
          (handle r (λ e. raise browser_error) s).0
          (handle r (λ e. raise browser_error) s).1
  unfolding raise
  handled (ok a) s = tt
  handled (err e) s = refl

  or_browser_error-Tame : {A : Type 0} (m : Action (Live W) A) → Tame (or_browser_error driver m)
  unfolding or_browser_error catch raise
  or_browser_error-Tame m = record { at = record { at = λ s h. handled (m s).0 (m s).1 } }

  report-Tame :
      (action : BrowserActionType) (target : Option Text) (given : Details)
      → Tame (report driver action target given)
  unfolding report
  report-Tame action target given = search tame_rules

  with_locator-Tame :
      {A : Type 0} (strategy : SelectorStrategy) (value : Text) (role : Option Text)
      (f : ℕ → Locator → Action W A)
      → Tame (with_locator driver strategy value role f)
  with_locator-Tame strategy value role f = or_browser_error-Tame _

  ruleset action_rules = (tame_rules, or_browser_error-Tame, report-Tame, with_locator-Tame)

  pub navigate-Tame : (url : Text) (timeout_ms : ℕ) → Tame (navigate driver url timeout_ms)
  unfolding navigate
  navigate-Tame url timeout_ms = search action_rules depth 12

  pub inspect-Tame : Tame (inspect driver)
  unfolding inspect
  inspect-Tame = or_browser_error-Tame _

  pub click-Tame :
      (strategy : SelectorStrategy) (value : Text) (role : Option Text)
      → Tame (click driver strategy value role)
  unfolding click
  click-Tame strategy value role = search action_rules depth 12

  pub type_text-Tame :
      (strategy : SelectorStrategy) (value content : Text) (role : Option Text) (clear : Bool)
      → Tame (type_text driver strategy value content role clear)
  unfolding type_text
  type_text-Tame strategy value content role clear = search action_rules depth 12

  pub extract_text-Tame :
      (selector : Option Text) (max_chars : ℕ) → Tame (extract_text driver selector max_chars)
  unfolding extract_text
  extract_text-Tame selector max_chars = search action_rules depth 12

  pub scroll-Tame : (direction : Direction) (pixels : ℤ) → Tame (scroll driver direction pixels)
  unfolding scroll
  scroll-Tame direction pixels = search action_rules depth 12

  pub wait_for_selector-Tame :
      (strategy : SelectorStrategy) (value : Text) (role : Option Text) (timeout_ms : ℕ)
      → Tame (wait_for_selector driver strategy value role timeout_ms)
  unfolding wait_for_selector
  wait_for_selector-Tame strategy value role timeout_ms = search action_rules depth 12

  pub select-Tame :
      (strategy : SelectorStrategy) (value option : Text) (role : Option Text)
      → Tame (select driver strategy value option role)
  unfolding select
  select-Tame strategy value option role = search action_rules depth 12

  pub download-Tame :
      (strategy : SelectorStrategy) (value : Text) (role : Option Text) (timeout_ms : ℕ)
      → Tame (download driver strategy value role timeout_ms)
  unfolding download
  download-Tame strategy value role timeout_ms = search action_rules depth 12

  pub new_tab-Tame : (url : Option Text) → Tame (new_tab driver url)
  unfolding new_tab
  new_tab-Tame url = search action_rules depth 12

  pub switch_tab-Tame : (index : ℤ) → Tame (switch_tab driver index)
  unfolding switch_tab
  switch_tab-Tame index = search action_rules depth 12

  pub list_tabs-Tame : Tame (list_tabs driver)
  unfolding list_tabs
  list_tabs-Tame = or_browser_error-Tame _
