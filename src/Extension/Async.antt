-- ===== src/Extension/Async.antt =====
-- The handlers of popup.js and background.js, from one `await` to the next, so that others may run in
-- between. A call of the browser and what its handler does after it, up to the next one, is one step;
-- a call is performed when its task goes on. The popup stays open (Extension/Closing has it closed).
use veritas_vpn.Base.{
  ℕ, Bool, true, false, not, ◌&&◌, Option, none, some, List, [], ◌∷◌, Text, text, is_truthy,
  or_text, trim, is_some, if◌then◌else◌, Result, ok, throw,
}
use veritas_vpn.Base.Net.{send, receive}
use veritas_vpn.Api.{User, Data, anonymous_user}
use veritas_vpn.Extension.Auth.{
  ProxySettings, Session, get_session, auth_request, read_answer, store_user, signed_in_user,
  signed_up_user,
}
use veritas_vpn.Extension.Proxy.{port_or_default, proxy_configured, save_proxy}
use veritas_vpn.Extension.Popup.{
  Mode, signin, signup, Method, email, account_id, Popup, show_banner, show_account,
  render_connected, refresh, connected_now,
}
use veritas_vpn.Extension.Closing.{
  Effect, set_badge, set_color, perform, connect_effects, disconnect_effects, sign_out_effects,
}

-- What a handler does with the session that it reads. `refresh` may stand at the end of a submission.
pub data Reader : Type 0 where
  for_refresh : (submission : Bool) → Reader
  for_toggle for_connect for_alarm for_installed for_startup : Reader

-- What follows the last effect of a handler.
pub data After : Type 0 where
  rest show_off refresh_next : After
  show_on : (demo : Bool) → After

-- What a handler waits for: the session; an effect, with those that follow it; the answer about an account,
-- and that its user is stored, whether its ID is shown then; that the proxy settings are stored.
pub data Task : Type 0 where
  reading : Reader → Task
  performing : Effect → List Effect → After → Task
  asking : (user_of : Data → User) (shows : Bool) → Task
  storing : User → Data → (shows : Bool) → Task
  saving : ProxySettings → Task

abbrev pub Step : Type 0
Step = Popup × Option Task

finish : After → Popup → Step
unfolding render_connected connected_now
finish rest p = (p, none)
finish show_off p = (render_connected false false p, none)
finish refresh_next p = (p, some (reading (for_refresh false)))
finish (show_on demo) p = (connected_now (ok demo) p, none)

unfoldable pub go_through : List Effect → After → Popup → Step
unfolding finish
go_through [] after p = finish after p
go_through (e ∷ es) after p = (p, some (performing e es after))

-- A click on the toggle.
unfoldable pub begin_toggle : Popup → Step
unfolding show_banner
begin_toggle p = (show_banner [] false p, some (reading for_toggle))

unfoldable pub begin_sign_out : Popup → Step
unfolding go_through
begin_sign_out p = go_through sign_out_effects refresh_next p

unfoldable pub submission_failed : Text → Popup → Popup
unfolding show_banner
submission_failed message p = record (show_banner (or_text message (text "Auth failed")) true p) {
  submit_disabled = false;
}

ask : Text → List (Text × Text) → (Data → User) → Bool → Popup → Step
unfolding send
ask endpoint fields user_of shows p = (
  record p { browser = record browser { net = send (auth_request endpoint fields) browser.net } },
  some (asking user_of shows),
)
  where
    open p use {browser}

begin_auth : Method → Mode → Popup → Step
unfolding ask submission_failed
begin_auth account_id signin p =
    let id = trim p.account_id_value in
    if is_truthy id
    then ask (text "/api/v1/auth/signin-account") ((text "account_id", id) ∷ []) anonymous_user
        false p
    else (submission_failed (text "Enter your account ID.") p, none)
begin_auth account_id signup p =
    ask (text "/api/v1/auth/register-anonymous") [] anonymous_user true p
begin_auth email signin p =
    let address = trim p.email_value in
    ask (text "/api/v1/auth/signin")
      ((text "email", address) ∷ (text "password", p.password_value) ∷ []) (signed_in_user address)
      false p
begin_auth email signup p =
    let address = trim p.email_value in
    ask (text "/api/v1/auth/register")
      ((text "email", address) ∷ (text "password", p.password_value) ∷ []) (signed_up_user address)
      false p

unfoldable pub begin_submit : Popup → Step
unfolding show_banner begin_auth
begin_submit p =
    begin_auth p.method p.mode (record (show_banner [] false p) { submit_disabled = true })

-- `port` is `Number(proxyPort.value)`, and 0 where that is no number.
unfoldable pub begin_save : ℕ → Popup → Step
begin_save port p = (
  p,
  some (
      saving (record {
        scheme = p.proxy_scheme;
        host = trim p.proxy_host;
        port = port_or_default port;
      })),
)

have_session : Reader → Session → Popup → Step
unfolding refresh go_through connect_effects connected_now proxy_configured
have_session (for_refresh submission) s p =
    (record (refresh p) { submit_disabled = not submission && p.submit_disabled }, none)
have_session for_toggle s p =
    if s.connected
    then go_through disconnect_effects show_off p
    else (p, some (reading for_connect))
have_session for_connect s p =
    if is_some s.user
    then go_through (connect_effects s) (show_on (not (proxy_configured s.proxy))) p
    else (connected_now (throw (text "Sign in first")) p, none)
have_session for_alarm s p =
    if not (is_some s.user) && s.connected then go_through disconnect_effects rest p else (p, none)
have_session for_installed s p =
    if s.connected
    then go_through (set_badge (text "ON") ∷ set_color (text "#00A8FF") ∷ []) rest p
    else (p, none)
have_session for_startup s p =
    if s.connected then (p, none) else go_through (set_badge [] ∷ []) rest p

have_answer : (Data → User) → Bool → Result Data → Popup → Step
unfolding submission_failed
have_answer user_of shows (ok d) p = (p, some (storing (user_of d) d shows))
have_answer user_of shows (throw message) p = (submission_failed message p, none)

-- What a task does when it goes on.
unfoldable pub resume : Task → Popup → Step
unfolding have_session get_session perform go_through receive read_answer have_answer store_user
    show_account save_proxy show_banner
resume (reading r) p = have_session r (get_session p.browser) p
resume (performing e es after) p = go_through es after (record p { browser = perform e p.browser })
resume (asking user_of shows) p =
    let (answer, net) = receive p.browser.net in
    have_answer user_of shows (read_answer answer)
      (record p { browser = record browser { net = net } })
  where
    open p use {browser}
resume (storing user d shows) p =
    let stored : Popup = record p { browser = store_user user d p.browser } in
    (
      if shows then show_account account_id signup user stored else stored,
      some (reading (for_refresh true)),
    )
resume (saving proxy) p = (
  show_banner (text "Proxy settings saved.") false
      (record p { browser = save_proxy proxy p.browser }),
  none,
)
