-- ===== src/Browser/Session.antt =====
-- `BrowserSession` of app/browser/session.py.
pub mod Laws
use agent_operator.Errors.{Error, browser_error}
use agent_operator.Prelude.{
  ℕ, zero, suc, ◌+◌, Bool, true, false, not, ◌&&◌, Option, none, some, String, List, [], ◌∷◌, ◌++◌,
  ◌==◌, take, length, ltb, get_elem?, Result, ok, err, Action, pure, raise, gets, lift, modify,
  raise_if, catch, ◌>>=◌, ◌>>◌, if◌then◌else◌,
}
use agent_operator.Text.{Text, codes, is_empty}
use agent_operator.Browser.{
  ℤ, pos, negsuc, negate, BrowserActionType, SelectorStrategy, Tab, Details, no_details,
  page_details, byte_count, extracted, chosen, downloaded, in_session, active_tab, open_tabs,
  BrowserActionResult, Locator, resolve_locator, Download, Driver,
}

-- The context does not change, and the page does.
pub record BrowserSession : Type 0 where
  pub session_id : ℕ
  pub context : ℕ
  pub page : ℕ
  pub crash_count : ℕ

-- A session and the state of Playwright.
pub record Live (W : Type 0) : Type 0 where
  pub world : W
  pub session : BrowserSession

pub data Direction : Type 0 where
  up down left right : Direction

abbrev pub reached : {W A : Type 0} → BrowserSession → Result A × W → Result A × Live W
reached session (r, w) = (r, record { world = w; session = session })

abbrev result : BrowserActionType → Option Text → Text → Details → BrowserActionResult
result action target url details = record {
  success = true;
  action = action;
  target = target;
  url = some url;
  details = details;
}

abbrev pub offset : Direction → ℤ → ℤ × ℤ
offset down pixels = (pos 0, pixels)
offset up pixels = (pos 0, negate pixels)
offset right pixels = (pixels, pos 0)
offset left pixels = (negate pixels, pos 0)

-- `pages.index(page)`, or -1.
unfoldable pub index_of : ℕ → ℕ → List ℕ → ℤ
index_of page i [] = negsuc 0
index_of page i (p ∷ pages) = if p == page then pos i else index_of page (suc i) pages

abbrev pub tab_at : ℤ → List ℕ → Option ℕ
tab_at (negsuc n) pages = none
tab_at (pos n) pages = get_elem? pages n

module _ {W : Type 0} (driver : Driver W) where
  -- A call of Playwright from a session, which keeps its fields.
  unfoldable pub drive : {A : Type 0} → Action W A → Action (Live W) A
  drive m live = reached live.session (m live.world)

  abbrev pub with_page : {A : Type 0} → (ℕ → Action W A) → Action (Live W) A
  with_page f = do page ← gets (λ live. live.session.page); drive (f page)

  unfoldable pub set_page : ℕ → Action (Live W) (Unit {0})
  set_page page = modify (λ live. record live { session = record live.session { page = page } })

  -- `except Exception as exc: raise BrowserError(…) from exc`.
  unfoldable pub or_browser_error : {A : Type 0} → Action (Live W) A → Action (Live W) A
  or_browser_error m = catch m (λ e. raise browser_error)

  abbrev pub current_url : Live W → Text
  current_url live = driver.url_of live.session.page live.world

  -- The result of an action, with the URL of the page.
  unfoldable pub report :
      BrowserActionType → Option Text → Details → Action (Live W) BrowserActionResult
  report action target details = do url ← gets current_url; pure (result action target url details)

  unfoldable pub navigate : Text → ℕ → Action (Live W) BrowserActionResult
  navigate url timeout_ms = do
    or_browser_error (with_page (λ page. driver.goto page url timeout_ms))
    report BrowserActionType.navigate none no_details

  abbrev pub viewport_or : Option (ℕ × ℕ) → ℕ × ℕ
  viewport_or none = (1280, 720)
  viewport_or (some size) = size

  unfoldable pub inspect : Action (Live W) BrowserActionResult
  inspect = or_browser_error (do
    title ← with_page driver.title_of
    viewport ← gets (λ live. driver.viewport_size live.session.page live.world)
    headings ← with_page driver.headings
    interactive_count ← with_page driver.interactive_count
    links ← with_page driver.links
    report BrowserActionType.inspect none
        (page_details title (viewport_or viewport) headings interactive_count links))

  -- An action on the element that a selector names.
  abbrev pub with_locator :
      {A : Type 0}
      → SelectorStrategy
      → Text
      → Option Text
      → (ℕ → Locator → Action W A)
      → Action (Live W) A
  with_locator strategy value role f =
      or_browser_error (do
        locator ← lift (resolve_locator strategy value role)
        with_page (λ page. f page locator))

  unfoldable pub click : SelectorStrategy → Text → Option Text → Action (Live W) BrowserActionResult
  click strategy value role = do
    with_locator strategy value role driver.click_on
    report BrowserActionType.click (some value) no_details

  unfoldable pub type_text :
      SelectorStrategy → Text → Text → Option Text → Bool → Action (Live W) BrowserActionResult
  type_text strategy value content role clear = do
    with_locator strategy value role (λ page locator.
        if clear
        then driver.fill_in page locator content
        else driver.type_into page locator content)
    report BrowserActionType.type (some value) no_details

  -- The only action that lets an exception of Playwright through.
  unfoldable pub screenshot : Action (Live W) BrowserActionResult
  screenshot = do
    bytes ← with_page driver.take_screenshot
    report BrowserActionType.screenshot none (byte_count (length bytes))

  abbrev pub selector_or_body : Option Text → Text
  selector_or_body none = codes "body"
  selector_or_body (some selector) = if is_empty selector then codes "body" else selector

  unfoldable pub extract_text : Option Text → ℕ → Action (Live W) BrowserActionResult
  extract_text selector max_chars = do
    content ←
        or_browser_error (with_page (λ page. driver.inner_text page (selector_or_body selector)))
    report BrowserActionType.extract none
        (extracted (take max_chars content) selector (ltb max_chars (length content)))

  unfoldable pub scroll : Direction → ℤ → Action (Live W) BrowserActionResult
  scroll direction pixels = do
    or_browser_error (
        with_page
          (λ page. driver.scroll_by page (offset direction pixels).0 (offset direction pixels).1))
    report BrowserActionType.scroll none no_details

  unfoldable pub wait_for_selector :
      SelectorStrategy → Text → Option Text → ℕ → Action (Live W) BrowserActionResult
  wait_for_selector strategy value role timeout_ms = do
    with_locator strategy value role (λ page locator. driver.wait_for page locator timeout_ms)
    report BrowserActionType.wait (some value) no_details

  unfoldable pub select :
      SelectorStrategy → Text → Text → Option Text → Action (Live W) BrowserActionResult
  select strategy value option role = do
    with_locator strategy value role (λ page locator. driver.select_option page locator option)
    report BrowserActionType.select (some value) (chosen option)

  unfoldable pub download :
      SelectorStrategy → Text → Option Text → ℕ → Action (Live W) BrowserActionResult
  download strategy value role timeout_ms = do
    file ←
        with_locator strategy value role
          (λ page locator. driver.click_for_download page locator timeout_ms)
    report BrowserActionType.download none (downloaded file.suggested_filename file.path file.size)

  -- `_install_crash_handler` on the page that is active.
  unfoldable pub install_crash_handler : Action (Live W) (Unit {0})
  install_crash_handler = with_page driver.listen

  abbrev pub goto_if_given : ℕ → Option Text → Action W (Unit {0})
  goto_if_given page none = pure tt
  goto_if_given page (some url) = driver.goto page url 30000

  -- The handlers are installed before the new page becomes the active one.
  unfoldable pub new_tab : Option Text → Action (Live W) BrowserActionResult
  new_tab url = do
    or_browser_error (do
      context ← gets (λ live. live.session.context)
      new_page ← drive (driver.new_page context)
      install_crash_handler
      set_page new_page
      drive (goto_if_given new_page url))
    id ← gets (λ live. live.session.session_id)
    report BrowserActionType.new_tab none (in_session id)

  abbrev pub set_tab : Option ℕ → Action (Live W) (Unit {0})
  set_tab none = raise browser_error
  set_tab (some page) = set_page page

  unfoldable pub switch_tab : ℤ → Action (Live W) BrowserActionResult
  switch_tab index = do
    or_browser_error (do
      pages ← gets (λ live. driver.pages live.session.context live.world)
      set_tab (tab_at index pages))
    report BrowserActionType.switch_tab none (active_tab index)

  -- The loop of `list_tabs`.
  unfoldable pub tabs_from : ℕ → List ℕ → Action W (List Tab)
  tabs_from i [] = pure []
  tabs_from i (page ∷ pages) = do
    url ← gets (driver.url_of page)
    closed ← gets (driver.is_closed page)
    title ← (if closed then pure (codes "[closed]") else driver.title_of page)
    rest ← tabs_from (suc i) pages
    pure (record { index = i; url = url; title = title } ∷ rest)

  unfoldable pub list_tabs : Action (Live W) BrowserActionResult
  list_tabs = or_browser_error (do
    pages ← gets (λ live. driver.pages live.session.context live.world)
    tabs ← drive (tabs_from 0 pages)
    page ← gets (λ live. live.session.page)
    report BrowserActionType.list_tabs none (open_tabs tabs (index_of page 0 pages)))

  -- `_on_crash` and `_on_load`.
  unfoldable pub on_crash : BrowserSession → BrowserSession
  on_crash session = record session { crash_count = session.crash_count + 1 }

  unfoldable pub on_load : BrowserSession → BrowserSession
  on_load session = record session { crash_count = 0 }

  -- `_recover_crashed_page`. That its own error is not to be retried is left out.
  unfoldable pub recover_crashed_page : Text → ℕ → Action (Live W) BrowserActionResult
  recover_crashed_page url timeout_ms = do
    crashes ← gets (λ live. live.session.crash_count)
    raise_if (ltb 1 crashes) browser_error
    catch (with_page driver.close_page) (λ e. pure tt)
    context ← gets (λ live. live.session.context)
    new_page ← drive (driver.new_page context)
    install_crash_handler
    set_page new_page
    navigate url timeout_ms

  -- `close`.
  unfoldable pub close_session_context : Action (Live W) (Unit {0})
  close_session_context = do
    context ← gets (λ live. live.session.context)
    drive (driver.close_context context)
