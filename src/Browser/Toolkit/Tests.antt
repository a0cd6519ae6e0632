-- ===== src/Browser/Toolkit/Tests.antt =====
-- The manager over a browser that numbers its contexts and pages and whose navigation fails.
use agent_operator.Errors.{browser_error, value_error}
use agent_operator.Prelude.{
  ℕ, suc, ◌≡◌, refl, true, false, none, [], ◌∷◌, ok, err, Action, pure, raise, lookup, new_key,
  catch, ◌>>=◌,
}
use agent_operator.Text.{codes}
use agent_operator.Browser.{pos, negsuc, SelectorStrategy, Driver, resolve_locator}
use agent_operator.Browser.Session.{index_of, switch_tab, or_browser_error}
use agent_operator.Browser.Manager.{
  manage, get_session, within, BrowserSettings, BrowserChannel, HeadlessMode, Managed, open_session,
  on_session,
}
use agent_operator.Browser.Toolkit.{call_switch_tab, execute_browser}
use agent_operator.Browser.Toolkit.Directory.{closing, Promise, view, serve}
use agent_operator.Browser.Toolkit.Laws.{serve-Promise}
use agent_operator.Browser.Toolkit.Methods.{execute_browser_error}

abbrev next : Action ℕ ℕ
next n = (ok n, suc n)

abbrev counting : Driver ℕ
counting = record {
  start_playwright = pure tt;
  stop_playwright = pure tt;
  launch = λ options. pure tt;
  close_browser = pure tt;
  new_context = next;
  set_default_timeouts = λ context default navigation. pure tt;
  close_context = λ context. raise value_error;
  new_page = λ context. next;
  close_page = λ page. pure tt;
  pages = λ context n. 8 ∷ 9 ∷ [];
  url_of = λ page n. codes "about:blank";
  is_closed = λ page n. false;
  viewport_size = λ page n. none;
  goto = λ page url timeout. raise value_error;
  title_of = λ page. pure (codes "title");
  headings = λ page. pure [];
  interactive_count = λ page. pure 3;
  links = λ page. pure [];
  scroll_by = λ page x y. pure tt;
  take_screenshot = λ page. raise value_error;
  inner_text = λ page selector. pure (codes "text");
  click_on = λ page locator. pure tt;
  fill_in = λ page locator content. pure tt;
  type_into = λ page locator content. pure tt;
  select_option = λ page locator option. pure tt;
  wait_for = λ page locator timeout. pure tt;
  click_for_download = λ page locator timeout.
      pure (record { suggested_filename = codes "f"; path = none; size = 0 });
  listen = λ page. pure tt;
}

abbrev settings : BrowserSettings
settings = record {
  channel = BrowserChannel.chromium;
  executable_path = none;
  headless_mode = HeadlessMode.new;
  default_timeout_ms = 30000;
  navigation_timeout_ms = 30000;
}

abbrev started : Managed ℕ
started = record {
  world = 5;
  has_playwright = true;
  has_browser = true;
  sessions =
      (2, record { session_id = 2; context = 1; page = 8; crash_count = 0 })
      ∷ (4, record { session_id = 4; context = 3; page = 9; crash_count = 0 })
      ∷ [];
}

opened_id : (open_session counting settings started).0 ≡ ok 5
unfolding ◌>>=◌ open_session manage new_key
opened_id = refl

index_missing : index_of 7 0 (8 ∷ 9 ∷ []) ≡ negsuc 0
unfolding index_of
index_missing = refl

role_missing : resolve_locator SelectorStrategy.aria_role (codes "Save") none ≡ err value_error
unfolding resolve_locator
role_missing = refl

-- A session is gone though its context could not be closed.
serve-Promise_example :
    Promise
      (closing 2)
      (view started)
      (serve counting (closing 2) started).0
      (view (serve counting (closing 2) started).1)
serve-Promise_example = serve-Promise counting (closing 2) started

switch_raises : (execute_browser counting (call_switch_tab 4 (pos 6)) started).0 ≡ err browser_error
unfolding ◌>>=◌ execute_browser on_session get_session lookup within switch_tab or_browser_error
    catch
switch_raises = refl

execute_browser_error_example : browser_error ≡ browser_error
execute_browser_error_example =
    execute_browser_error counting (call_switch_tab 4 (pos 6)) started browser_error tt
      switch_raises
