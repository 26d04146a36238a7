-- ===== src/Site/SignIn/Tests.antt =====
-- The sign-in window at concrete states, from the page's own HTML (website/index.html, lines 380-412).
use veritas_vpn.Base.{
  length, if◌then◌else◌, ◌≡◌, refl, true, false, none, some, [], ◌∷◌, text, trim, starts_with,
}
use veritas_vpn.Base.Net.{answered, parsed}
use veritas_vpn.Api.{Data, empty_data}
use veritas_vpn.Site.Session.Refresh.{no_storage}
use veritas_vpn.Site.Modes.{signin, View}
use veritas_vpn.Site.SignIn.{App, account_path}
use veritas_vpn.Site.SignIn.Handlers.{on_submit, on_open, on_switch_hint, on_anon_signup}
use veritas_vpn.Site.SignIn.Settle.{settle, init_auth_ui, email_user}
use veritas_vpn.Site.SignIn.Events.{
  Run, here, next, click_open, click_hint, click_anon_signup, submit, answer, handle, can_happen,
}
use veritas_vpn.Site.SignIn.Busy.{Run-IsGuarded}
use veritas_vpn.Site.SignIn.Views.{init-Run-Rendered, Rendered}

abbrev html : View
html = record {
  active_tab = signin;
  title = text "Sign in";
  submit_text = text "Sign in";
  submit_class = text "btn btn-primary btn-block";
  submit_hidden = false;
  form_hidden = false;
  fields_hidden = false;
  reset_hidden = false;
  hint_hidden = false;
  hint_text = text "Don't have an account? Sign up";
  anon_signup_hidden = false;
  anon_signin_hidden = true;
  note_hidden = none;
  tabs_hidden = false;
  brand_hidden = false;
  divider_hidden = false;
  forgot_hidden = none;
  email_label = text "Email";
  email_type = text "email";
  placeholder = text "you@example.com";
  email_autocomplete = text "email";
  email_required = true;
  password_hidden = false;
  password_required = true;
  password_autocomplete = text "current-password";
}

abbrev tokens : Data
tokens = record empty_data {
  access_token = some (text "t");
  refresh_token = some (text "r");
  account_id = some (text "a1");
}

abbrev page : App
page = record {
  site = record {
    storage = no_storage;
    current_user = none;
    auth_ready = false;
    listeners = [];
    calls = [];
    net = record {
      answers = answered (record { status = 200; body = parsed tokens }) ∷ [];
      sent = [];
    };
  };
  form = record {
    mode = signin;
    busy = false;
    pending_redirect = false;
    is_open = false;
    menu_open = false;
    error = [];
    error_is_success = false;
    email_value = text " ann@x.org";
    password_value = text "secret";
    forgot_value = [];
    logged_in_shown = false;
    nav_email = [];
    view = html;
  };
  redirect_after_auth = true;
  pathname = text "/";
  href = none;
  dispatched = [];
  downloads = [];
  closings = 0;
  pending = [];
}

-- A submission and its answer: the address is trimmed, the session is stored, the page goes on.
signs_in :
    ((settle 0 (on_submit page)).site.current_user ≡ some (email_user (text "ann@x.org") tokens))
    × ((settle 0 (on_submit page)).href ≡ some account_path)
unfolding on_submit settle text trim starts_with
signs_in = (refl, refl)

abbrev opened : App
opened = init_auth_ui false false page

abbrev last : App
last = handle (answer 0) (
    handle submit
      (handle click_anon_signup (handle click_hint (handle (click_open (some signin)) opened))))

run : Run opened last
unfolding handle can_happen on_open on_switch_hint on_anon_signup on_submit init_auth_ui
run =
    next (answer 0)
      (next submit
        (next click_anon_signup (next click_hint (next (click_open (some signin)) here refl) refl)
          refl)
        refl)
      refl

Run-IsGuarded_example : length last.pending ≡ (if last.form.busy then 1 else 0)
unfolding init_auth_ui
Run-IsGuarded_example = Run-IsGuarded refl run

init-Run-Rendered_example : Rendered last
init-Run-Rendered_example = init-Run-Rendered false false page run
