-- ===== src/Extension/Auth.antt =====
-- clients/browser-extension/js/auth.js: the stored session, the requests, the proxy settings.
use veritas_vpn.Base.{
  ℕ, Bool, true, false, ◌&&◌, ◌||◌, Option, none, some, List, [], ◌∷◌, ◌++◌, Text, text, is_truthy,
  or_else, or_null, trim, includes, to_lower_case, is_true, if◌then◌else◌, Result, ok, throw,
}
use veritas_vpn.Base.Net.{
  post, Request, Body, parsed, unreadable, Answer, rejected, answered, Net, is_ok, fetch,
}
use veritas_vpn.Api.{User, Data, auth_api, anonymous_user}

pub record ProxySettings : Type 0 where
  pub scheme : Text
  pub host : Text
  pub port : ℕ

abbrev pub default_proxy : ProxySettings
default_proxy = record { scheme = text "socks5"; host = text "REDACTED_IP"; port = 1080 }

-- `chrome.storage.local`, at the keys of `STORAGE_KEYS`.
pub record Storage : Type 0 where
  pub user : Option User
  pub access_token : Option Text
  pub refresh_token : Option Text
  pub connected : Option Bool
  pub proxy : Option ProxySettings

-- The browser: its storage, the proxy rules that are in force (the fixed server; the bypass list is
-- always the same), the badge, whether clearing the rules fails, and the network.
pub record Browser : Type 0 where
  pub storage : Storage
  pub rules : Option ProxySettings
  pub badge_text : Text
  pub badge_color : Text
  pub clear_rejects : Bool
  pub net : Net Data

pub record Session : Type 0 where
  pub user : Option User
  pub id_token : Option Text
  pub connected : Bool
  pub proxy : ProxySettings

abbrev proxy_or_default : Option ProxySettings → ProxySettings
proxy_or_default none = default_proxy
proxy_or_default (some p) = p

unfoldable pub get_session : Browser → Session
get_session b = record {
  user = b.storage.user;
  id_token = or_null b.storage.access_token;
  connected = is_true b.storage.connected;
  proxy = proxy_or_default b.storage.proxy;
}

-- The rejection of `settings.clear` is ignored.
unfoldable pub clear_proxy : Browser → Browser
clear_proxy b = if b.clear_rejects then b else record b { rules = none }

unfoldable pub clear_session : Browser → Browser
unfolding clear_proxy
clear_session b = clear_proxy (record b {
  storage = record storage {
    user = none;
    access_token = none;
    refresh_token = none;
    connected = none;
  };
})
  where
    open b use {storage}

unfoldable pub humanize_error : Text → Text
humanize_error msg =
    let m = to_lower_case msg in
    if includes m (text "email")
    then text "Invalid email address."
    else if includes m (text "password")
    then (if includes m (text "6")
        then text "Password must be at least 6 characters."
        else text "Incorrect email or password.")
    else if includes m (text "already exists")
    then text "An account already exists with this email."
    else if includes m (text "account")
        && (includes m (text "invalid")
            || (includes m (text "not found") || includes m (text "id")))
    then text "Account ID not found."
    else msg

-- `await res.json()`, then the test of `res.ok`.
read_body : Body Data → Bool → Result Data
unfolding humanize_error
read_body (unreadable message) good = throw message
read_body (parsed d) true = ok d
read_body (parsed d) false = throw (humanize_error (or_else d.error (text "Authentication failed")))

unfoldable pub read_answer : Answer Data → Result Data
unfolding read_body
read_answer (rejected message) = throw message
read_answer (answered res) = read_body res.body (is_ok res)

abbrev pub auth_request : Text → List (Text × Text) → Request
auth_request endpoint fields = record {
  method = post;
  url = auth_api ++ endpoint;
  authorization = none;
  content_json = true;
  body = fields;
}

unfoldable pub auth_api_call : Text → List (Text × Text) → Browser → Result Data × Browser
unfolding fetch read_answer
auth_api_call endpoint fields b =
    let (answer, net) = fetch (auth_request endpoint fields) b.net in
    (read_answer answer, record b { net = net })

-- `chrome.storage.local.set` passes over a property that is `undefined`.
abbrev set_text : Option Text → Option Text → Option Text
set_text none old = old
set_text (some new) old = some new

unfoldable pub store_user : User → Data → Browser → Browser
store_user user d b = record b {
  storage = record storage {
    user = some user;
    access_token = set_text d.access_token storage.access_token;
    refresh_token = set_text d.refresh_token storage.refresh_token;
  };
}
  where
    open b use {storage}

keep_user : (Data → User) → Result Data × Browser → Result User × Browser
unfolding store_user
keep_user user_of (ok d, b) = (ok (user_of d), store_user (user_of d) d b)
keep_user user_of (throw message, b) = (throw message, b)

abbrev pub signed_in_user : Text → Data → User
signed_in_user email d = record {
  email = some (or_else d.email email);
  account_id = d.account_id;
  is_anonymous = false;
}

abbrev pub signed_up_user : Text → Data → User
signed_up_user email d = record {
  email = some email;
  account_id = d.account_id;
  is_anonymous = false;
}

unfoldable pub sign_in : Text → Text → Browser → Result User × Browser
unfolding auth_api_call keep_user
sign_in email password b = keep_user (signed_in_user email) (
    auth_api_call (text "/api/v1/auth/signin")
      ((text "email", email) ∷ (text "password", password) ∷ []) b)

unfoldable pub sign_up : Text → Text → Browser → Result User × Browser
unfolding auth_api_call keep_user
sign_up email password b = keep_user (signed_up_user email) (
    auth_api_call (text "/api/v1/auth/register")
      ((text "email", email) ∷ (text "password", password) ∷ []) b)

unfoldable pub sign_in_with_account_id : Text → Browser → Result User × Browser
unfolding auth_api_call keep_user
sign_in_with_account_id account_id b =
    let id = trim account_id in
    if is_truthy id
    then keep_user anonymous_user
        (auth_api_call (text "/api/v1/auth/signin-account") ((text "account_id", id) ∷ []) b)
    else (throw (text "Enter your account ID."), b)

unfoldable pub register_anonymous : Browser → Result User × Browser
unfolding auth_api_call keep_user
register_anonymous b =
    keep_user anonymous_user (auth_api_call (text "/api/v1/auth/register-anonymous") [] b)

unfoldable pub sign_out : Browser → Browser
unfolding clear_session
sign_out b = clear_session b
