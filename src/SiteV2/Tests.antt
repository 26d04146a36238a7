-- ===== src/SiteV2/Tests.antt =====
-- The second version of the site at concrete states.
use veritas_vpn.Base.{◌≡◌, refl, true, false, none, some, [], ◌∷◌, text, Text}
use veritas_vpn.Base.Net.{answered, parsed}
use veritas_vpn.Api.{User, Data, empty_data}
use veritas_vpn.Site.Session.{Site}
use veritas_vpn.Site.Session.Refresh.{no_storage}
use veritas_vpn.Site.Modes as V1
use veritas_vpn.Site.SignIn.{account_path}
use veritas_vpn.Site.Account.{Account}
use veritas_vpn.Site.Account.Actions.{start}
use veritas_vpn.SiteV2.Modes.{signin, anon_signup, View, show_mode}
use veritas_vpn.SiteV2.Window.{App}
use veritas_vpn.SiteV2.Handlers.{on_open, on_anon_signin, on_anon_signup, on_submit, on_close}
use veritas_vpn.SiteV2.Events.{
  Run, here, next, settle, handle, can_happen, click_open, click_close, submit, answer, type_email,
}
use veritas_vpn.SiteV2.Laws.{password_lost, Agrees, first_mode, show_mode-Agrees}

abbrev html : View
html = record {
  active_tab = signin;
  title = text "Sign in";
  submit_text = text "Sign in";
  submit_class = text "btn btn-primary btn-block";
  fields_hidden = false;
  reset_hidden = false;
  hint_hidden = false;
  hint_text = text "Don't have an account? Sign up";
  anon_signup_hidden = false;
  anon_signin_hidden = true;
  email_label = text "Email";
  email_type = text "email";
  placeholder = text "you@example.com";
  email_autocomplete = text "email";
  email_required = true;
  password_hidden = false;
  password_display_none = false;
  password_required = true;
  password_autocomplete = text "current-password";
}

abbrev stranger : Site
stranger = record {
  storage = no_storage;
  current_user = none;
  auth_ready = false;
  listeners = [];
  calls = [];
  net = record {
    answers =
        answered (record {
          status = 201;
          body = parsed (record empty_data {
            account_id = some (text "a1");
            access_token = some (text "t");
            refresh_token = some (text "r");
          });
        })
        ∷ [];
    sent = [];
  };
}

abbrev page : App
page = record {
  site = stranger;
  form = record {
    mode = signin;
    busy = false;
    anon_created = false;
    pending_redirect = false;
    is_open = true;
    menu_open = false;
    error = [];
    error_is_success = false;
    email_value = [];
    password_value = [];
    logged_in_shown = false;
    nav_email = [];
    view = html;
  };
  redirect_after_auth = true;
  pathname = text "/";
  href = none;
  dispatched = [];
  pending = [];
}

-- An anonymous account is made; the window then offers the dashboard.
abbrev made : App
made = handle (answer 0) (handle submit (on_anon_signup page))

makes_account :
    (made.form.anon_created ≡ true)
    × (made.form.view.submit_text ≡ text "Go to dashboard")
    × (made.form.busy ≡ false)
    × ((handle submit made).href ≡ some account_path)
unfolding handle on_anon_signup on_submit settle text
makes_account = (refl, refl, refl, refl)

-- Back from the sign-in by account ID, the user opens the window again and enters the email.
abbrev back : App
back =
    handle (type_email (text "ann@x.org"))
      (handle (click_open (some signin)) (handle click_close (on_anon_signin page)))

back_run : Run (on_anon_signin page) back
unfolding handle on_anon_signin on_open on_close can_happen text
back_run =
    next (type_email (text "ann@x.org"))
      (next (click_open (some signin)) (next click_close here refl) refl) refl

password_lost_example :
    (back.form.view.password_display_none ≡ true)
    × (back.form.password_value ≡ [])
    × ((on_submit back).site ≡ back.site)
    × ((on_submit back).pending ≡ back.pending)
    × ((on_submit back).form.error ≡ text "Email and password are required.")
unfolding handle on_anon_signin on_open on_close
password_lost_example = password_lost page back_run refl refl

abbrev first_html : V1.View
first_html = record {
  active_tab = V1.signin;
  title = text "Sign in";
  submit_text = text "Sign in";
  submit_class = text "btn btn-primary btn-block";
  submit_hidden = false;
  form_hidden = false;
  fields_hidden = false;
  reset_hidden = false;
  hint_hidden = false;
  hint_text = text "Don't have an account? Sign up";
  anon_signup_hidden = false;
  anon_signin_hidden = true;
  note_hidden = none;
  tabs_hidden = false;
  brand_hidden = false;
  divider_hidden = false;
  forgot_hidden = none;
  email_label = text "Email";
  email_type = text "email";
  placeholder = text "you@example.com";
  email_autocomplete = text "email";
  email_required = true;
  password_hidden = false;
  password_required = true;
  password_autocomplete = text "current-password";
}

html-Agrees : Agrees first_html html
html-Agrees = record {
  title = refl;
  submit_text = refl;
  submit_class = refl;
  fields_hidden = refl;
  reset_hidden = refl;
  anon_signup_hidden = refl;
  anon_signin_hidden = refl;
  email_label = refl;
  email_type = refl;
  placeholder = refl;
  email_autocomplete = refl;
  email_required = refl;
  form_shown = refl;
  tabs_shown = refl;
  brand_shown = refl;
  divider_shown = refl;
  submit_shown = refl;
}

show_mode-Agrees_example :
    Agrees (V1.show_mode (first_mode anon_signup) first_html) (show_mode anon_signup html)
show_mode-Agrees_example = show_mode-Agrees anon_signup first_html html html-Agrees

-- A date is shown as it is written.
abbrev locale_date : Text → Text
locale_date iso = iso

abbrev premium : Data
premium = record empty_data { is_premium = some true }

abbrev anonymous : User
anonymous = record { email = none; account_id = some (text "a1"); is_anonymous = true }

abbrev account : Account
account = start [] (record stranger { current_user = some anonymous })
