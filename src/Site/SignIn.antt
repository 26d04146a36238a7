-- ===== src/Site/SignIn.antt =====
-- The sign-in window of website/js/auth.js, lines 209-435: its state and the functions that its
-- handlers share.
pub mod Handlers
pub mod Settle
pub mod Events
pub mod Busy
pub mod Views
pub mod Login
mod Tests
use veritas_vpn.Base.{
  ℕ, ◌≡◌, Bool, true, false, not, ◌&&◌, Option, none, some, List, [], ◌∷◌, ◌++◌, map, Text, text,
  is_truthy, or_text, or_else, starts_with, is_some, or_null, if◌then◌else◌,
}
use veritas_vpn.Api.{User}
use veritas_vpn.Site.Session.{Site}
use veritas_vpn.Site.Modes.{Mode, anon_signin, View, tab_of, show_mode}

-- The variables of `initAuthUI` with the inputs and the rest of the page.
pub record Form : Type 0 where
  pub mode : Mode
  pub busy : Bool
  pub pending_redirect : Bool
  pub is_open : Bool
  pub menu_open : Bool
  pub error : Text
  pub error_is_success : Bool
  pub email_value : Text
  pub password_value : Text
  pub forgot_value : Text
  pub logged_in_shown : Bool
  pub nav_email : Text
  pub view : View

-- `setError`; the line is hidden where its text is empty.
unfoldable pub set_error : Text → Bool → Form → Form
set_error message success f = record f {
  error = message;
  error_is_success = is_truthy message && success;
}

-- Only the sign-in by account ID clears the password.
abbrev kept_password : Mode → Text → Text
kept_password anon_signin p = []
kept_password m p = p

unfoldable pub set_mode : Mode → Form → Form
unfolding show_mode set_error
set_mode next f = set_error [] false (record f {
  mode = next;
  password_value = kept_password next f.password_value;
  view = show_mode next (record view { active_tab = tab_of next });
})
  where
    open f use {view}

unfoldable pub open_modal : Mode → Form → Form
unfolding set_mode
open_modal preferred f = record (set_mode preferred f) { is_open = true }

-- `form.reset()` empties the two inputs of the form.
unfoldable pub close_modal : Form → Form
unfolding set_error
close_modal f = record (set_error [] false (record f { is_open = false })) {
  email_value = [];
  password_value = [];
  menu_open = false;
}

unfoldable pub set_busy : Bool → Form → Form
set_busy next f = record f { busy = next }

-- A request of the window that waits for its answer, with what its handler keeps.
pub data Pending : Type 0 where
  registering identifying resetting : Pending
  entering : Text → Pending

-- The page. `href` is the address that the code last went to, `dispatched` the users of the
-- `veritas-auth-changed` events, `downloads` the tokens of the account files that were asked for,
-- `closings` counts the timers that close the window, and `pending` are the requests that run, the latest first.
pub record App : Type 0 where
  pub site : Site
  pub form : Form
  pub redirect_after_auth : Bool
  pub pathname : Text
  pub href : Option Text
  pub dispatched : List (Option User)
  pub downloads : List Text
  pub closings : ℕ
  pub pending : List Pending

abbrev pub account_path : Text
account_path = text "/account/"

unfoldable pub go_to_dashboard : Text → App → App
go_to_dashboard hash a = record a {
  href = some (if is_truthy hash then account_path ++ hash else account_path);
}

unfoldable pub should_redirect_to_dashboard_after_auth : App → Bool
should_redirect_to_dashboard_after_auth a = not (starts_with a.pathname (text "/account"))

abbrev pub has_token : App → Bool
has_token a = is_some (or_null a.site.storage.access_token)

unfoldable pub handle_gate_click : Mode → Text → App → App
unfolding go_to_dashboard open_modal
handle_gate_click preferred hash a =
    if has_token a
    then go_to_dashboard hash a
    else record a { form = open_modal preferred (record form { pending_redirect = true }) }
  where
    open a use {form}

unfoldable pub update_navbar : Option User → Form → Form
update_navbar none f = record f { logged_in_shown = false }
update_navbar (some user) f = record f {
  logged_in_shown = true;
  nav_email = or_else user.email (or_else user.account_id (text "Account"));
}

-- `renderUser` with a user.
render_some : User → App → App
unfolding update_navbar close_modal should_redirect_to_dashboard_after_auth go_to_dashboard
render_some user a =
    let shown = record a {
      form = close_modal (update_navbar (some user) a.form);
      dispatched = a.dispatched ++ (some user ∷ []);
    } in
    if a.redirect_after_auth
      && (a.form.pending_redirect && should_redirect_to_dashboard_after_auth a)
    then go_to_dashboard [] (record shown {
      form = record (close_modal (update_navbar (some user) a.form)) { pending_redirect = false };
    })
    else shown

-- `renderUser(null)`.
render_none : App → App
unfolding update_navbar
render_none a = record a {
  form = record (update_navbar none a.form) { menu_open = false; pending_redirect = false };
  dispatched = a.dispatched ++ (none ∷ []);
}

unfoldable pub render_user : Option User → App → App
unfolding render_some render_none
render_user none a = render_none a
render_user (some user) a = render_some user a
