-- ===== src/SiteV2/Events.antt =====
-- What the handlers of the sign-in window do after their `await`, the start of the page, and the window
-- as a state machine: website/js-v2/auth.js, lines 504-591 and 628-647.
use veritas_vpn.Base.{
  ℕ, ◌≡◌, Bool, true, false, not, ◌&&◌, ◌||◌, Option, none, some, ◌++◌, Text, text, text_of,
  if◌then◌else◌, Result, ok, throw, is_some,
}
use veritas_vpn.Base.Waiting.{task_at, without}
use veritas_vpn.Base.Net.{receive}
use veritas_vpn.Api.{User, Data, anonymous_user}
use veritas_vpn.SiteV2.Store.{set_session, restore_session}
use veritas_vpn.SiteV2.Session.{read_answer}
use veritas_vpn.Site.Errors.{map_auth_error}
use veritas_vpn.Site.SignIn.{Pending, registering, identifying, resetting, entering}
use veritas_vpn.Site.SignIn.Settle.{email_user}
use veritas_vpn.SiteV2.Modes.{Mode, signin, signup, anon_signup}
use veritas_vpn.SiteV2.Window.{
  Form, set_error, set_mode, open_modal, set_busy, App, update_navbar, render_user,
}
use veritas_vpn.SiteV2.Handlers.{
  Gate, gate, on_open, on_gate, on_dashboard_link, on_close, on_escape, on_tab, on_switch_hint,
  on_anon_signup, on_anon_signin, on_submit, on_reset, on_user_menu, on_outside_click, on_sign_out,
}

-- `finally { setBusy(false); }`.
abbrev finish : App → App
finish a = record a { form = set_busy false form }
  where
    open a use {form}

-- `setSession(user, …); currentUser = user;`
abbrev log_in : User → Data → App → App
log_in user d a = record a { site = set_session user d.access_token d.refresh_token a.site }

-- An anonymous account is made: it is shown, and the button now leads to the dashboard.
registered : Data → App → App
unfolding set_session update_navbar set_mode set_error
registered d a =
    let user = anonymous_user d in
    let shown =
      set_mode anon_signup (record (update_navbar (some user) a.form) { anon_created = true }) in
    record (log_in user d a) {
      form =
          record (set_error
            (text "Your account ID: <strong>"
              ++ (text_of d.account_id
                  ++ text "</strong><br><br>Copy it now — no way to recover it."))
            true shown) {
              view = record (shown.view) {
                submit_text = text "Go to dashboard";
                submit_class = text "btn btn-primary btn-block";
              };
            };
    }

abbrev signed_in : User → Data → App → App
signed_in user d a = render_user (some user) (log_in user d a)

-- The `catch` of the two sign-in paths and of the others.
sign_in_failed : Text → App → App
unfolding set_error map_auth_error
sign_in_failed message a = record a {
  form = set_error (map_auth_error message) false (record form { pending_redirect = false });
}
  where
    open a use {form}

failed : Text → App → App
unfolding set_error map_auth_error
failed message a = record a { form = set_error (map_auth_error message) false a.form }

resume : Pending → Result Data → App → App
unfolding registered failed sign_in_failed set_session render_user
resume registering (ok d) a = registered d a
resume registering (throw message) a = failed message a
resume identifying (ok d) a = signed_in (anonymous_user d) d a
resume identifying (throw message) a = sign_in_failed message a
resume (entering email) (ok d) a = signed_in (email_user email d) d a
resume (entering email) (throw message) a = sign_in_failed message a
resume resetting (ok d) a = record a {
  form =
      set_error (text "If this email is registered, a password reset link has been sent.") true
        a.form;
}
resume resetting (throw message) a = failed message a

-- The answer to one of the requests that run arrives.
unfoldable pub settle : ℕ → App → App
unfolding receive read_answer resume set_busy
settle n a = elim (task_at n a.pending) [
  | none ↦ a
  | some p ↦
      let (answer, net) = receive a.site.net in
      finish (
        resume p (read_answer answer)
          (record a { site = record site { net = net }; pending = without n a.pending }))
]
  where
    open a use {site}

-- `?signin=1` and `?signup=1`, the first of which wins.
open_by_query : Bool → Bool → Form → Form
unfolding open_modal
open_by_query asks_signin asks_signup f =
    if asks_signin then open_modal signin f else if asks_signup then open_modal signup f else f

remember : Option User → App → App
remember none a = a
remember (some user) a = record a { site = record site { current_user = some user } }
  where
    open a use {site}

-- The end of `initAuthUI`.
unfoldable pub init_auth_ui : Bool → Bool → App → App
unfolding open_by_query remember restore_session render_user set_mode
init_auth_ui asks_signin asks_signup a =
    let opened = record a { form = open_by_query asks_signin asks_signup a.form } in
    let user = restore_session a.site in
    let shown = render_user user (remember user opened) in
    record shown { form = set_mode signin shown.form }

pub data Event : Type 0 where
  click_open : Option Mode → Event
  click_gate : Option Gate → Text → Event
  click_dashboard : Text → Event
  click_close escape click_signin_tab click_signup_tab click_hint click_anon_signup : Event
  click_anon_signin submit click_reset : Event
  click_menu click_outside click_sign_out : Event
  answer : ℕ → Event
  type_email type_password : Text → Event

-- Elements of the window can be used only while it is open and they are not hidden; so nothing can be
-- typed into a password field that is not seen.
in_window : Bool → App → Bool
in_window hidden a = a.form.is_open && not hidden

-- The values of the attributes `data-auth-open` and `data-auth-gate` on the pages.
abbrev pub is_page_mode : Option Mode → Bool
is_page_mode none = true
is_page_mode (some signin) = true
is_page_mode (some signup) = true
is_page_mode (some m) = false

abbrev pub is_page_gate : Option Gate → Bool
is_page_gate (some (gate m)) = is_page_mode (some m)
is_page_gate g = true

unfoldable pub can_happen : Event → App → Bool
unfolding in_window
can_happen click_close a = a.form.is_open
can_happen escape a = true
can_happen click_signin_tab a = in_window false a
can_happen click_signup_tab a = in_window false a
can_happen click_hint a = in_window a.form.view.hint_hidden a
can_happen click_anon_signup a = in_window a.form.view.anon_signup_hidden a
can_happen click_anon_signin a = in_window a.form.view.anon_signin_hidden a
can_happen submit a = in_window false a
can_happen click_reset a = in_window a.form.view.reset_hidden a
can_happen click_sign_out a = a.form.logged_in_shown
can_happen (answer n) a = is_some (task_at n a.pending)
can_happen (click_open m) a = is_page_mode m
can_happen (click_gate g hash) a = is_page_gate g
can_happen (click_dashboard hash) a = true
can_happen click_menu a = true
can_happen click_outside a = true
can_happen (type_email v) a = in_window a.form.view.fields_hidden a
can_happen (type_password v) a =
    in_window a.form.view.fields_hidden a
    && not (a.form.view.password_hidden || a.form.view.password_display_none)

unfoldable pub handle : Event → App → App
handle (click_open m) a = on_open m a
handle (click_gate g hash) a = on_gate g hash a
handle (click_dashboard hash) a = on_dashboard_link hash a
handle click_close a = on_close a
handle escape a = on_escape a
handle click_signin_tab a = on_tab signin a
handle click_signup_tab a = on_tab signup a
handle click_hint a = on_switch_hint a
handle click_anon_signup a = on_anon_signup a
handle click_anon_signin a = on_anon_signin a
handle submit a = on_submit a
handle click_reset a = on_reset a
handle click_menu a = on_user_menu a
handle click_outside a = on_outside_click a
handle click_sign_out a = on_sign_out a
handle (answer n) a = settle n a
handle (type_email v) a = record a { form = record form { email_value = v } }
  where
    open a use {form}
handle (type_password v) a = record a { form = record form { password_value = v } }
  where
    open a use {form}

-- A run of the page.
pub data Run (a : App) : App → Type 0 where
  here : Run a a
  next : {b : App} (e : Event) → Run a b → can_happen e b ≡ true → Run a (handle e b)
