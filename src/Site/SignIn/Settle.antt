-- ===== src/Site/SignIn/Settle.antt =====
-- What the handlers of the sign-in window do after their `await`, and the start of the page:
-- website/js/auth.js, lines 528-551, 564-574, 588-600, 615-623, 661-676 and 172-179.
use veritas_vpn.Base.{
  ℕ, ◌-◌, ◌+◌, Bool, true, false, Option, none, some, [], ◌∷◌, ◌++◌, Text, text, text_of,
  if◌then◌else◌, Result, ok, throw,
}
use veritas_vpn.Base.Waiting.{task_at, without}
use veritas_vpn.Base.Net.{receive}
use veritas_vpn.Api.{User, Data, anonymous_user}
use veritas_vpn.Site.Session.{read_answer, set_session, restore_session}
use veritas_vpn.Site.Errors.{map_auth_error}
use veritas_vpn.Site.Modes.{Mode, signin, signup}
use veritas_vpn.Site.SignIn.{
  Form, set_error, set_mode, open_modal, close_modal, set_busy, Pending, registering, identifying,
  resetting, entering, App, go_to_dashboard, has_token, update_navbar, render_user,
}
use veritas_vpn.Site.SignIn.Handlers.{on_open}

-- `finally { setBusy(false); }`.
abbrev finish : App → App
finish a = record a { form = set_busy false form }
  where
    open a use {form}

-- `setSession(user, …); currentUser = user;`
abbrev log_in : User → Data → App → App
log_in user d a = record a { site = set_session user d.access_token d.refresh_token a.site }

-- An anonymous account is made: it is shown, its file is downloaded, and the window closes later.
registered : Data → App → App
unfolding set_session update_navbar set_error set_busy
registered d a =
    let user = anonymous_user d in
    record (log_in user d a) {
      form =
          set_error
            (text "Account created. Account ID: <strong>"
              ++ (text_of d.account_id ++ text "</strong> — check your downloads."))
            true (update_navbar (some user) a.form);
      downloads = a.downloads ++ (text_of d.access_token ∷ []);
      closings = a.closings + 1;
    }

abbrev signed_in : User → Data → App → App
signed_in user d a = render_user (some user) (log_in user d a)

-- The `catch` of the two sign-in paths and of the others.
sign_in_failed : Text → App → App
unfolding set_error map_auth_error
sign_in_failed message a = record a {
  form = set_error (map_auth_error message) false (record form { pending_redirect = false });
}
  where
    open a use {form}

failed : Text → App → App
unfolding set_error map_auth_error
failed message a = record a { form = set_error (map_auth_error message) false a.form }

-- `{ email: email, account_id: data.account_id }`.
abbrev pub email_user : Text → Data → User
email_user email d = record { email = some email; account_id = d.account_id; is_anonymous = false }

resume : Pending → Result Data → App → App
unfolding registered failed sign_in_failed set_session render_user
resume registering (ok d) a = registered d a
resume registering (throw message) a = failed message a
resume identifying (ok d) a = signed_in (anonymous_user d) d a
resume identifying (throw message) a = sign_in_failed message a
resume (entering email) (ok d) a = signed_in (email_user email d) d a
resume (entering email) (throw message) a = sign_in_failed message a
resume resetting (ok d) a = record a {
  form =
      set_error (text "If this email is registered, a password reset link has been sent.") true
        a.form;
}
resume resetting (throw message) a = failed message a

-- The answer to one of the requests that run arrives.
unfoldable pub settle : ℕ → App → App
unfolding receive read_answer resume set_busy
settle n a = elim (task_at n a.pending) [
  | none ↦ a
  | some p ↦
      let (answer, net) = receive a.site.net in
      finish (
        resume p (read_answer answer)
          (record a { site = record site { net = net }; pending = without n a.pending }))
]
  where
    open a use {site}

-- The timer of `setTimeout(() => { closeModal(); enterDashboard(); }, 800)`.
unfoldable pub on_closing : App → App
unfolding close_modal go_to_dashboard
on_closing a =
    go_to_dashboard [] (record a { form = close_modal a.form; closings = a.closings - 1 })

-- `?signin=1` and `?signup=1`, the first of which wins.
open_by_query : Bool → Bool → Form → Form
unfolding open_modal
open_by_query asks_signin asks_signup f =
    if asks_signin then open_modal signin f else if asks_signup then open_modal signup f else f

remember : Option User → App → App
remember none a = a
remember (some user) a = record a { site = record site { current_user = some user } }
  where
    open a use {site}

-- The end of `initAuthUI`.
unfoldable pub init_auth_ui : Bool → Bool → App → App
unfolding open_by_query remember restore_session render_user set_mode
init_auth_ui asks_signin asks_signup a =
    let opened = record a { form = open_by_query asks_signin asks_signup a.form } in
    let user = restore_session a.site in
    let shown = render_user user (remember user opened) in
    record shown { form = set_mode signin shown.form }

-- `requireAuthOrOpenModal`; the click is on a button that opens the window in that mode.
unfoldable pub require_auth_or_open_modal : Mode → App → Bool × App
unfolding on_open
require_auth_or_open_modal preferred a =
    if has_token a then (true, a) else (false, on_open (some preferred) a)
