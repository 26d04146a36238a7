-- ===== src/Extension/Popup.antt =====
-- clients/browser-extension/js/popup.js: the popup's variables, its view and its handlers.
use veritas_vpn.Base.{
  ℕ, Bool, true, false, not, ◌&&◌, none, some, [], ◌++◌, Text, text, is_truthy, or_text, or_else,
  text_of, trim, if◌then◌else◌, Result, ok, throw,
}
use veritas_vpn.Api.{User}
use veritas_vpn.Extension.Auth.{
  Browser, Session, get_session, sign_in, sign_up, sign_in_with_account_id, register_anonymous,
  sign_out,
}
use veritas_vpn.Extension.Proxy.{port_or_default, proxy_configured, connect, disconnect, save_proxy}

pub data Mode : Type 0 where
  signin signup : Mode

pub data Method : Type 0 where
  email account_id : Method

abbrev pub is_signin : Mode → Bool
is_signin signin = true
is_signin signup = false

abbrev pub is_email : Method → Bool
is_email email = true
is_email account_id = false

abbrev other_method : Method → Method
other_method email = account_id
other_method account_id = email

-- The fields of the sign-in form, as `syncAuthFields` leaves them.
pub record Fields : Type 0 where
  pub active_tab : Mode
  pub email_hidden : Bool
  pub account_id_hidden : Bool
  pub hint_hidden : Bool
  pub email_required : Bool
  pub password_required : Bool
  pub account_id_required : Bool
  pub submit_text : Text
  pub toggle_text : Text

-- What the main view shows of the connection.
pub record Status : Type 0 where
  pub pressed : Bool
  pub label : Text
  pub state : Text

pub record Popup : Type 0 where
  pub browser : Browser
  pub mode : Mode
  pub method : Method
  pub banner : Text
  pub banner_is_error : Bool
  pub fields : Fields
  pub status : Status
  pub auth_hidden : Bool
  pub main_hidden : Bool
  pub submit_disabled : Bool
  pub user_email : Text
  pub email_value : Text
  pub password_value : Text
  pub account_id_value : Text
  pub proxy_scheme : Text
  pub proxy_host : Text
  pub proxy_port : ℕ

-- `showBanner`; the banner is hidden where its text is empty, and then keeps its class.
unfoldable pub show_banner : Text → Bool → Popup → Popup
show_banner message is_error p =
    if is_truthy message
    then record p { banner = message; banner_is_error = is_error }
    else record p { banner = [] }

submit_text_of : Method → Mode → Text
submit_text_of email signin = text "Sign in"
submit_text_of email signup = text "Create account"
submit_text_of account_id signin = text "Sign in with Account ID"
submit_text_of account_id signup = text "Create anonymous account"

toggle_text_of : Method → Mode → Text
toggle_text_of email signin = text "Sign in with Account ID instead"
toggle_text_of email signup = text "Skip email — create anonymous account"
toggle_text_of account_id signin = text "Sign in with email instead"
toggle_text_of account_id signup = text "Use email instead"

unfoldable pub sync_auth_fields : Popup → Popup
unfolding submit_text_of toggle_text_of
sync_auth_fields p = record p {
  fields = record fields {
    email_hidden = not (is_email method);
    account_id_hidden = not (not (is_email method) && is_signin mode);
    hint_hidden = not (not (is_email method) && not (is_signin mode));
    email_required = is_email method;
    password_required = is_email method;
    account_id_required = not (is_email method) && is_signin mode;
    submit_text = submit_text_of method mode;
    toggle_text = toggle_text_of method mode;
  };
}
  where
    open p use {method, mode, fields}

unfoldable pub set_mode : Mode → Popup → Popup
unfolding sync_auth_fields
set_mode next p =
    sync_auth_fields
      (record p { mode = next; method = email; fields = record fields { active_tab = next } })
  where
    open p use {fields}

unfoldable pub on_method_toggle : Popup → Popup
unfolding sync_auth_fields show_banner
on_method_toggle p =
    sync_auth_fields (show_banner [] false (record p { method = other_method p.method }))

unfoldable pub render_connected : Bool → Bool → Popup → Popup
render_connected connected demo p = record p {
  status = record {
    pressed = connected;
    label = if connected then text "Disconnect" else text "Connect";
    state =
        if not connected
        then text "Disconnected"
        else if demo
        then text "Connected (demo — no proxy host set)"
        else text "Connected — browser traffic proxied";
  };
}

refresh_in : User → Session → Popup → Popup
unfolding render_connected proxy_configured
refresh_in user session p =
    render_connected session.connected (session.connected && not (proxy_configured session.proxy))
      (record p {
        auth_hidden = true;
        main_hidden = false;
        user_email = or_else user.email (text_of user.account_id);
        proxy_scheme = or_text session.proxy.scheme (text "socks5");
        proxy_host = session.proxy.host;
        proxy_port = port_or_default session.proxy.port;
      })

refresh_out : Popup → Popup
unfolding render_connected sync_auth_fields
refresh_out p =
    sync_auth_fields
      (render_connected false false (record p { auth_hidden = false; main_hidden = true }))

unfoldable pub refresh : Popup → Popup
unfolding get_session refresh_in refresh_out
refresh p = elim (get_session p.browser).user [
  | none ↦ refresh_out p
  | some user ↦ refresh_in user (get_session p.browser) p
]

-- The four calls of `submit`; the anonymous registration shows the new account ID.
authenticate : Method → Mode → Popup → Result User × Browser
authenticate account_id signin p = sign_in_with_account_id p.account_id_value p.browser
authenticate account_id signup p = register_anonymous p.browser
authenticate email signin p = sign_in (trim p.email_value) p.password_value p.browser
authenticate email signup p = sign_up (trim p.email_value) p.password_value p.browser

unfoldable pub show_account : Method → Mode → User → Popup → Popup
unfolding show_banner
show_account account_id signup user p =
    show_banner (text "Account ID: " ++ (text_of user.account_id ++ text " — copy it now.")) false p
show_account email mode user p = p
show_account account_id signin user p = p

submitted : Result User → Popup → Popup
unfolding show_account show_banner refresh
submitted (ok user) p = refresh (show_account p.method p.mode user p)
submitted (throw message) p = show_banner (or_text message (text "Auth failed")) true p

unfoldable pub on_submit : Popup → Popup
unfolding show_banner authenticate submitted
on_submit p =
    let start = show_banner [] false p in
    let (result, browser) = authenticate p.method p.mode start in
    record (submitted result (record start { browser = browser })) { submit_disabled = false }

unfoldable pub connected_now : Result Bool → Popup → Popup
unfolding render_connected show_banner
connected_now (ok demo) p =
    let rendered = render_connected true demo p in
    if demo
    then show_banner (text "Demo mode: set a proxy host under Proxy settings for real routing.")
        false rendered
    else rendered
connected_now (throw message) p = show_banner (or_text message (text "Connection failed")) true p

unfoldable pub on_toggle : Popup → Popup
unfolding get_session show_banner render_connected connect disconnect connected_now
on_toggle p =
    let start = show_banner [] false p in
    if (get_session p.browser).connected
    then render_connected false false (record start { browser = disconnect p.browser })
    else (let (result, browser) = connect p.browser in
        connected_now result (record start { browser = browser }))

unfoldable pub on_sign_out : Popup → Popup
unfolding sign_out refresh
on_sign_out p = refresh (record p { browser = sign_out p.browser })

-- `port` is `Number(proxyPort.value)`, and 0 where that is no number.
unfoldable pub on_save_proxy : ℕ → Popup → Popup
unfolding save_proxy show_banner
on_save_proxy port p = show_banner (text "Proxy settings saved.") false (record p {
  browser =
      save_proxy
        (record { scheme = p.proxy_scheme; host = trim p.proxy_host; port = port_or_default port })
        p.browser;
})
