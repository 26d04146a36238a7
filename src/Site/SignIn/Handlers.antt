-- ===== src/Site/SignIn/Handlers.antt =====
-- The handlers of the sign-in window, website/js/auth.js, lines 437-683. A handler that waits for the
-- server is two steps: what it does before its `await`, and `settle`, which takes the answer. Between
-- the two every other handler may run.
use veritas_vpn.Base.{
  Bool, true, false, not, ◌&&◌, Option, none, some, List, [], ◌∷◌, Text, text, is_truthy, trim,
  starts_with, if◌then◌else◌,
}
use veritas_vpn.Base.Net.{post, send}
use veritas_vpn.Site.Session.{Options, api_request, clear_session, reset_options}
use veritas_vpn.Site.Modes.{
  Mode, signin, signup, anon_signup, anon_signin, forgot, is_signin, is_anon,
}
use veritas_vpn.Site.SignIn.{
  Form, set_error, set_mode, open_modal, close_modal, set_busy, Pending, registering, identifying,
  resetting, entering, App, go_to_dashboard, should_redirect_to_dashboard_after_auth, has_token,
  handle_gate_click, render_user,
}

-- `data-auth-gate`: the dashboard, or a mode.
pub data Gate : Type 0 where
  dashboard : Gate
  gate : Mode → Gate

abbrev gate_mode : Option Gate → Mode
gate_mode none = signup
gate_mode (some dashboard) = signup
gate_mode (some (gate m)) = m

abbrev mode_or_signin : Option Mode → Mode
mode_or_signin none = signin
mode_or_signin (some m) = m

abbrev is_signup : Mode → Bool
is_signup signup = true
is_signup m = false

abbrev is_email_mode : Option Mode → Bool
is_email_mode (some signin) = true
is_email_mode (some signup) = true
is_email_mode m = false

unfoldable pub on_open : Option Mode → App → App
unfolding open_modal should_redirect_to_dashboard_after_auth
on_open preferred a = record a {
  form = open_modal (mode_or_signin preferred) (record form {
    pending_redirect =
        a.redirect_after_auth
        && (should_redirect_to_dashboard_after_auth a && is_email_mode preferred);
  });
}
  where
    open a use {form}

unfoldable pub on_gate : Option Gate → Text → App → App
unfolding handle_gate_click
on_gate attr hash a = handle_gate_click (gate_mode attr) hash a

unfoldable pub on_dashboard_link : Text → App → App
unfolding go_to_dashboard open_modal
on_dashboard_link hash a =
    if has_token a
    then go_to_dashboard hash a
    else record a { form = open_modal signin (record form { pending_redirect = true }) }
  where
    open a use {form}

-- The close button, a click on the backdrop, and Escape, which wants the window to be open.
unfoldable pub on_close : App → App
unfolding close_modal
on_close a = record a { form = close_modal (record form { pending_redirect = false }) }
  where
    open a use {form}

unfoldable pub on_escape : App → App
unfolding on_close
on_escape a = if a.form.is_open then on_close a else a

unfoldable pub on_tab : Mode → App → App
unfolding set_mode
on_tab tab a = record a {
  form =
      set_mode
        (if is_anon form.mode then (if is_signup tab then anon_signup else anon_signin) else tab)
        form;
}
  where
    open a use {form}

unfoldable pub on_switch_hint : App → App
unfolding set_mode
on_switch_hint a = record a {
  form =
      set_mode
        (if is_anon form.mode then signin else if is_signin form.mode then signup else signin) form;
}
  where
    open a use {form}

unfoldable pub on_anon_signup : App → App
unfolding set_mode
on_anon_signup a = record a { form = set_mode anon_signup a.form }

unfoldable pub on_anon_signin : App → App
unfolding set_mode
on_anon_signin a = record a { form = set_mode anon_signin a.form }

-- A request leaves and the handler waits.
abbrev start : Text → Options → Pending → Form → App → App
start path o p f a = record a {
  form = f;
  site = record site { net = send (api_request path o) site.net };
  pending = p ∷ a.pending;
}
  where
    open a use {site}

abbrev posting : List (Text × Text) → Options
posting fields = record { method = post; authorization = none; body = fields }

-- `form.submit` up to the `await`, in each mode.
submit_anon_signup : Form → App → App
unfolding set_busy send
submit_anon_signup f a =
    start (text "/api/v1/auth/register-anonymous") (posting []) registering (set_busy true f) a

redirects : App → Bool
unfolding should_redirect_to_dashboard_after_auth
redirects a = a.redirect_after_auth && should_redirect_to_dashboard_after_auth a

submit_anon_signin : Form → App → App
unfolding set_busy set_error send trim redirects
submit_anon_signin f a =
    let account_id = trim f.email_value in
    if is_truthy account_id
    then start (text "/api/v1/auth/signin-account") (posting ((text "account_id", account_id) ∷ []))
        identifying (record (set_busy true f) { pending_redirect = redirects a }) a
    else record a { form = set_error (text "Enter your account ID.") false f }

submit_email : Form → App → App
unfolding set_busy set_error send trim redirects
submit_email f a =
    let email = trim f.email_value in
    if is_truthy email && is_truthy f.password_value
    then start
        (if is_signin f.mode then text "/api/v1/auth/signin" else text "/api/v1/auth/register")
        (posting ((text "email", email) ∷ (text "password", f.password_value) ∷ []))
        (entering email) (record (set_busy true f) { pending_redirect = redirects a }) a
    else record a { form = set_error (text "Email and password are required.") false f }

submit_mode : Mode → Form → App → App
unfolding submit_anon_signup submit_anon_signin submit_email
submit_mode forgot f a = a
submit_mode anon_signup f a = submit_anon_signup f a
submit_mode anon_signin f a = submit_anon_signin f a
submit_mode signin f a = submit_email f a
submit_mode signup f a = submit_email f a

unfoldable pub on_submit : App → App
unfolding submit_mode set_error
on_submit a = if a.form.busy then a else submit_mode a.form.mode (set_error [] false a.form) a

unfoldable pub on_forgot_submit : App → App
unfolding set_busy set_error send trim
on_forgot_submit a =
    let email = trim form.forgot_value in
    if form.busy
    then a
    else if is_truthy email
    then start (text "/api/v1/auth/reset-password") (reset_options email) resetting
        (set_error [] false (set_busy true form)) a
    else record a { form = set_error (text "Enter your email to receive a reset link.") false form }
  where
    open a use {form}

unfoldable pub on_forgot_back : App → App
unfolding set_mode set_error
on_forgot_back a = record a { form = set_mode signin (set_error [] false a.form) }

unfoldable pub on_reset : App → App
unfolding set_mode set_error
on_reset a = if form.busy then a else record a {
  form = record (set_mode forgot (set_error [] false form)) { forgot_value = form.email_value };
}
  where
    open a use {form}

unfoldable pub on_user_menu : App → App
on_user_menu a = record a { form = record form { menu_open = not form.menu_open } }
  where
    open a use {form}

-- A click outside of the shown user's part of the navigation bar.
unfoldable pub on_outside_click : App → App
on_outside_click a = record a { form = record form { menu_open = false } }
  where
    open a use {form}

unfoldable pub on_sign_out : App → App
unfolding clear_session render_user
on_sign_out a =
    let out = render_user none (record a { site = clear_session a.site }) in
    if starts_with a.pathname (text "/account") then record out { href = some (text "/") } else out
