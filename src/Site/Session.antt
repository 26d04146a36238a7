-- ===== src/Site/Session.antt =====
-- website/js/auth.js, lines 11-156 and 685-702: the stored session, requests with and without the
-- token, the silent refresh and the listeners.
pub mod Refresh
pub mod Races
pub mod Invariant
mod Tests
use veritas_vpn.Base.{
  ℕ, ◌+◌, ◌≡◌, refl, Bool, true, false, not, ◌&&◌, ◌||◌, Option, none, some, List, [], ◌∷◌, ◌++◌,
  map, Text, text, is_truthy, or_else, or_null, text_of, includes, status_text, is_some, ltb, ◌==◌,
  if◌then◌else◌, Result, ok, throw,
}
use veritas_vpn.Base.Net.{
  Body, parsed, unreadable, Method, get, post, Request, Answer, rejected, answered, Net, is_ok,
  fetch,
}
use veritas_vpn.Api.{User, Data, empty_data, auth_api}
use veritas_vpn.Site.Token.{expires_soon}

-- The item `veritas_user`, by what `JSON.parse` makes of its text.
pub data UserText : Type 0 where
  json : User → UserText
  null_text : UserText
  malformed : UserText

-- `localStorage`, at the three keys of `STORAGE_KEYS`.
pub record LocalStorage : Type 0 where
  pub user : Option UserText
  pub access_token : Option Text
  pub refresh_token : Option Text

-- The module's variables with the storage and the network. A listener is named by a number, and
-- `calls` records the calls that were made of the listeners.
pub record Site : Type 0 where
  pub storage : LocalStorage
  pub current_user : Option User
  pub auth_ready : Bool
  pub listeners : List ℕ
  pub calls : List (ℕ × Option User)
  pub net : Net Data

unfoldable pub is_logged_in : Site → Bool
is_logged_in s = is_some (or_null s.storage.access_token)

unfoldable pub set_session : User → Option Text → Option Text → Site → Site
set_session user access refresh s = record s {
  storage = record {
    user = some (json user);
    access_token = some (text_of access);
    refresh_token = some (text_of refresh);
  };
  current_user = some user;
}

unfoldable pub clear_session : Site → Site
clear_session s = record s {
  storage = record { user = none; access_token = none; refresh_token = none };
  current_user = none;
}

parse_user : Option UserText → Option User
parse_user none = none
parse_user (some (json u)) = some u
parse_user (some null_text) = none
parse_user (some malformed) = none

unfoldable pub restore_session : Site → Option User
unfolding parse_user
restore_session s = parse_user s.storage.user

-- The fields of `options` that the callers give.
pub record Options : Type 0 where
  pub method : Method
  pub authorization : Option Text
  pub body : List (Text × Text)

-- What `api` makes of the answer: `res.json().catch(() => ({}))`, then the test of `res.ok`.
abbrev pub body_or_empty : Body Data → Data
body_or_empty (unreadable message) = empty_data
body_or_empty (parsed d) = d

unfoldable pub read_answer : Answer Data → Result Data
read_answer (rejected message) = throw message
read_answer (answered res) =
    let d = body_or_empty res.body in
    if is_ok res
    then ok d
    else throw (or_else d.error (text "Request failed (" ++ (status_text res.status ++ text ")")))

abbrev pub api_request : Text → Options → Request
api_request path o = record {
  method = o.method;
  url = auth_api ++ path;
  authorization = o.authorization;
  content_json = true;
  body = o.body;
}

unfoldable pub api : Text → Options → Site → Result Data × Site
unfolding fetch read_answer
api path o s =
    let (answer, net) = fetch (api_request path o) s.net in
    (read_answer answer, record s { net = net })

-- `listeners.forEach((fn) => fn(user))`, as the calls that it makes.
unfoldable pub notify_listeners : Option User → Site → Site
notify_listeners user s = record s {
  auth_ready = true;
  calls = s.calls ++ map (λ fn. (fn, user)) s.listeners;
}

-- The end of `refreshTokenSilently`: the answer is stored if a user is, or the session is dropped.
unfoldable pub finish_refresh : Result Data → Site → Bool × Site
unfolding restore_session set_session clear_session notify_listeners
finish_refresh (ok d) s = elim (restore_session s) [
  | none ↦ (true, s)
  | some user ↦ (true, set_session user d.access_token d.refresh_token s)
]
finish_refresh (throw message) s = (false, notify_listeners none (clear_session s))

abbrev pub refresh_options : Text → Options
refresh_options rt = record {
  method = post;
  authorization = none;
  body = (text "refresh_token", rt) ∷ [];
}

unfoldable pub refresh_token_silently : Site → Bool × Site
unfolding finish_refresh api
refresh_token_silently s = elim (or_null s.storage.refresh_token) [
  | none ↦ (false, s)
  | some rt ↦
      let (result, s') = api (text "/api/v1/auth/refresh") (refresh_options rt) s in
      finish_refresh result s'
]

unfoldable pub force_refresh_access_token : Site → Bool × Site
unfolding refresh_token_silently
force_refresh_access_token s = refresh_token_silently s

-- The `catch` of `apiWithAuth`.
unfoldable pub after_failure : Text → Options → Text → Site → Result Data × Site
unfolding refresh_token_silently api
after_failure path o message s =
    if includes message (text "401") || includes message (text "invalid token")
    then (let (refreshed, s') = refresh_token_silently s in
        if refreshed
        then api path
            (record o { authorization = some (text "Bearer " ++ text_of s'.storage.access_token) })
            s'
        else (throw message, s'))
    else (throw message, s)

unfoldable pub api_with_auth : Text → Options → Site → Result Data × Site
unfolding after_failure
api_with_auth path o s = elim (or_null s.storage.access_token) [
  | none ↦ (throw (text "Not signed in"), s)
  | some token ↦
      let (result, s') = api path (record o { authorization = some (text "Bearer " ++ token) }) s in
      elim result [ ok d ↦ (ok d, s') | throw message ↦ after_failure path o message s' ]
]

-- `onAuthStateChanged`, and the function that it returns.
unfoldable pub on_auth_state_changed : ℕ → Site → Site
unfolding restore_session
on_auth_state_changed fn s =
    let pushed = record s { listeners = s.listeners ++ (fn ∷ []) } in
    if s.auth_ready
    then record pushed { calls = s.calls ++ ((fn, s.current_user) ∷ []) }
    else elim (restore_session s) [
      | none ↦ pushed
      | some user ↦ record pushed {
        current_user = some user;
        calls = s.calls ++ ((fn, some user) ∷ []);
      }
    ]

unfoldable pub remove : ℕ → List ℕ → List ℕ
remove fn [] = []
remove fn (l ∷ ls) = let rest = remove fn ls in if l == fn then rest else l ∷ rest

unfoldable pub unsubscribe : ℕ → Site → Site
unfolding remove
unsubscribe fn s = record s { listeners = remove fn s.listeners }

-- `payload_exp` is the field `exp` of a decoded payload, and `none` where the decoding throws.
module _ (payload_exp : Text → Option ℕ) where
  -- `getIdToken` at the time `now`, in seconds.
  unfoldable pub get_id_token : ℕ → Site → Option Text × Site
  unfolding refresh_token_silently
  get_id_token now s = elim (or_null s.storage.access_token) [
    | none ↦ (none, s)
    | some token ↦
        if expires_soon payload_exp now token
        then (let (done, s') = refresh_token_silently s in
            if done then (s'.storage.access_token, s') else (none, s'))
        else (some token, s)
  ]

unfoldable pub sign_out_handler : Site → Site
unfolding clear_session notify_listeners
sign_out_handler s = notify_listeners none (record (clear_session s) { current_user = none })

abbrev pub reset_options : Text → Options
reset_options email = record {
  method = post;
  authorization = none;
  body = (text "email", email) ∷ [];
}

unfoldable pub send_password_reset_email : Text → Site → Result (Unit {0}) × Site
unfolding api
send_password_reset_email email s =
    let (result, s') = api (text "/api/v1/auth/reset-password") (reset_options email) s in
    elim result [ ok d ↦ (ok tt, s') | throw message ↦ (throw message, s') ]

-- `auth.currentUser`.
unfoldable pub current_user : Site → Option User
unfolding restore_session
current_user s = elim s.current_user [ none ↦ restore_session s | some u ↦ some u ]
