-- ===== src/Desktop/Auth.antt =====
-- clients/desktop/src/auth.ts: the stored session and the requests for accounts.
use veritas_vpn.Base.{
  ℕ, Bool, true, false, ◌&&◌, ◌||◌, Option, none, some, List, [], ◌∷◌, ◌++◌, Text, text, is_truthy,
  or_text, or_else, or_null, text_of, trim, includes, to_lower_case, status_text, if◌then◌else◌,
  Result, ok, throw,
}
use veritas_vpn.Base.Net.{
  post, Request, Body, parsed, unreadable, Answer, rejected, answered, Net, is_ok, fetch,
}
use veritas_vpn.Api.{User, Data, empty_data, auth_api, anonymous_user}
use veritas_vpn.Site.Session.{UserText, json, null_text, malformed, LocalStorage}

-- An answer with the fields of `AuthResponse` and of `PeerResponse` (App.tsx).
pub record Reply : Type 0 where
  pub auth : Data
  pub peer_id : Option Text
  pub server_public_key : Option Text
  pub server_endpoint : Option Text
  pub assigned_ip : Option Text
  pub dns_server : Option Text
  pub preshared_key : Option Text
  pub allowed_ips : Option (List Text)
  pub client_allowed_ips : Option (List Text)
  pub code : Option Text

-- What the functions of auth.ts work on.
pub record Client : Type 0 where
  pub storage : LocalStorage
  pub net : Net Reply

unfoldable pub humanize_error : Text → Text
humanize_error msg =
    let m = to_lower_case msg in
    if includes m (text "incorrect email or password")
      || includes m (text "invalid email or password")
    then text "Incorrect email or password."
    else if includes m (text "email") && (includes m (text "invalid") || includes m (text "format"))
    then text "Invalid email address."
    else if includes m (text "password")
    then (if includes m (text "6")
        then text "Password must be at least 6 characters."
        else text "Incorrect email or password.")
    else if includes m (text "already exists")
    then text "An account with this email already exists."
    else if includes m (text "account")
        && (includes m (text "invalid")
            || (includes m (text "not found") || includes m (text "id")))
    then text "Account ID not found."
    else msg

request_failed : ℕ → Text
request_failed status = text "Request failed (" ++ (status_text status ++ text ")")

-- `JSON.parse(text)`, or an object that has the text as its error.
body_or_error : Body Reply → ℕ → Option Text × Data
unfolding request_failed
body_or_error (parsed r) status = (r.auth.error, r.auth)
body_or_error (unreadable content) status =
    (some (or_text content (request_failed status)), empty_data)

unfoldable pub read_answer : Answer Reply → Result Data
unfolding humanize_error body_or_error request_failed
read_answer (rejected message) = throw message
read_answer (answered res) =
    let (error, d) = body_or_error res.body res.status in
    if is_ok res then ok d else throw (humanize_error (or_else error (request_failed res.status)))

abbrev pub auth_request : Text → List (Text × Text) → Request
auth_request path fields = record {
  method = post;
  url = auth_api ++ path;
  authorization = none;
  content_json = true;
  body = fields;
}

unfoldable pub auth_api_call : Text → List (Text × Text) → Client → Result Data × Client
unfolding fetch read_answer
auth_api_call path fields c =
    let (answer, net) = fetch (auth_request path fields) c.net in
    (read_answer answer, record c { net = net })

unfoldable pub persist_session : User → Data → Client → Client
persist_session user d c = record c {
  storage = record {
    user = some (json user);
    access_token = some (text_of d.access_token);
    refresh_token = some (text_of d.refresh_token);
  };
}

parse_user : Option UserText → Option User
parse_user none = none
parse_user (some (json u)) = some u
parse_user (some null_text) = none
parse_user (some malformed) = none

unfoldable pub get_stored_user : Client → Option User
unfolding parse_user
get_stored_user c = parse_user c.storage.user

unfoldable pub get_stored_token : Client → Option Text
get_stored_token c = c.storage.access_token

unfoldable pub finish_refresh : Result Data → Client → Bool × Client
unfolding get_stored_user persist_session
finish_refresh (throw message) c = (false, c)
finish_refresh (ok d) c = elim (get_stored_user c) [
  | none ↦ (false, c)
  | some user ↦ (true, persist_session user d c)
]

unfoldable pub refresh_session : Client → Bool × Client
unfolding auth_api_call finish_refresh
refresh_session c = elim (or_null c.storage.refresh_token) [
  | none ↦ (false, c)
  | some rt ↦
      let (result, c') =
        auth_api_call (text "/api/v1/auth/refresh") ((text "refresh_token", rt) ∷ []) c in
      finish_refresh result c'
]

unfoldable pub keep_user : (Data → User) → Result Data × Client → Result User × Client
unfolding persist_session
keep_user user_of (ok d, c) = (ok (user_of d), persist_session (user_of d) d c)
keep_user user_of (throw message, c) = (throw message, c)

unfoldable pub sign_in : Text → Text → Client → Result User × Client
unfolding auth_api_call keep_user
sign_in email password c =
    let normalized_email = to_lower_case (trim email) in
    keep_user
      (λ d. record {
        email = some (or_else d.email normalized_email);
        account_id = d.account_id;
        is_anonymous = false;
      })
      (auth_api_call (text "/api/v1/auth/signin")
        ((text "email", normalized_email) ∷ (text "password", password) ∷ []) c)

unfoldable pub sign_up : Text → Text → Client → Result User × Client
unfolding auth_api_call keep_user
sign_up email password c =
    let normalized_email = to_lower_case (trim email) in
    keep_user
      (λ d. record {
        email = some normalized_email;
        account_id = d.account_id;
        is_anonymous = false;
      })
      (auth_api_call (text "/api/v1/auth/register")
        ((text "email", normalized_email) ∷ (text "password", password) ∷ []) c)

unfoldable pub sign_in_with_account_id : Text → Client → Result User × Client
unfolding auth_api_call keep_user
sign_in_with_account_id account_id c =
    let id = trim account_id in
    if is_truthy id
    then keep_user anonymous_user
        (auth_api_call (text "/api/v1/auth/signin-account") ((text "account_id", id) ∷ []) c)
    else (throw (text "Enter your account ID."), c)

unfoldable pub register_anonymous : Client → Result User × Client
unfolding auth_api_call keep_user
register_anonymous c =
    keep_user anonymous_user (auth_api_call (text "/api/v1/auth/register-anonymous") [] c)

unfoldable pub sign_out : Client → Client
sign_out c = record c {
  storage = record { user = none; access_token = none; refresh_token = none };
}
