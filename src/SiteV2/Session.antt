-- ===== src/SiteV2/Session.antt =====
-- The requests of website/js-v2/auth.js, lines 1-153 and 598-652: the service's address is empty there.
pub mod Calls
pub mod Versions
mod Tests
use veritas_vpn.Base.{
  ℕ, ◌||◌, Bool, true, false, Option, none, some, [], ◌∷◌, ◌++◌, Text, text, or_null, text_of,
  includes, or_else, status_text, if◌then◌else◌, Result, ok, throw,
}
use veritas_vpn.Base.Net.{Request, Answer, rejected, answered, is_ok, fetch}
use veritas_vpn.Api.{Data}
use veritas_vpn.Site.Token.{expires_soon}
use veritas_vpn.Site.Session.{Site, Options, refresh_options, reset_options, body_or_empty}
use veritas_vpn.SiteV2.Store.{restore_session, set_session, clear_session, notify_listeners}

abbrev pub auth_api : Text
auth_api = []

abbrev pub api_request : Text → Options → Request
api_request path o = record {
  method = o.method;
  url = auth_api ++ path;
  authorization = o.authorization;
  content_json = true;
  body = o.body;
}

-- What `api` makes of the answer.
unfoldable pub read_answer : Answer Data → Result Data
read_answer (rejected message) = throw message
read_answer (answered res) =
    let d = body_or_empty res.body in
    if is_ok res
    then ok d
    else throw (or_else d.error (text "Request failed (" ++ (status_text res.status ++ text ")")))

unfoldable pub api : Text → Options → Site → Result Data × Site
unfolding fetch read_answer
api path o s =
    let (answer, net) = fetch (api_request path o) s.net in
    (read_answer answer, record s { net = net })

-- The end of `refreshTokenSilently`: the answer is stored if a user is, or the session is dropped.
unfoldable pub finish_refresh : Result Data → Site → Bool × Site
unfolding restore_session set_session clear_session notify_listeners
finish_refresh (ok d) s = elim (restore_session s) [
  | none ↦ (true, s)
  | some user ↦ (true, set_session user d.access_token d.refresh_token s)
]
finish_refresh (throw message) s = (false, notify_listeners none (clear_session s))

unfoldable pub refresh_token_silently : Site → Bool × Site
unfolding finish_refresh api
refresh_token_silently s = elim (or_null s.storage.refresh_token) [
  | none ↦ (false, s)
  | some rt ↦
      let (result, s') = api (text "/api/v1/auth/refresh") (refresh_options rt) s in
      finish_refresh result s'
]

unfoldable pub force_refresh_access_token : Site → Bool × Site
unfolding refresh_token_silently
force_refresh_access_token s = refresh_token_silently s

-- The `catch` of `apiWithAuth`.
unfoldable pub after_failure : Text → Options → Text → Site → Result Data × Site
unfolding refresh_token_silently api
after_failure path o message s =
    if includes message (text "401") || includes message (text "invalid token")
    then (let (refreshed, s') = refresh_token_silently s in
        if refreshed
        then api path
            (record o { authorization = some (text "Bearer " ++ text_of s'.storage.access_token) })
            s'
        else (throw message, s'))
    else (throw message, s)

unfoldable pub api_with_auth : Text → Options → Site → Result Data × Site
unfolding after_failure
api_with_auth path o s = elim (or_null s.storage.access_token) [
  | none ↦ (throw (text "Not signed in"), s)
  | some token ↦
      let (result, s') = api path (record o { authorization = some (text "Bearer " ++ token) }) s in
      elim result [ ok d ↦ (ok d, s') | throw message ↦ after_failure path o message s' ]
]

-- `payload_exp` is the field `exp` of a decoded payload, and `none` where the decoding throws.
module _ (payload_exp : Text → Option ℕ) where
  -- `getIdToken` at the time `now`, in seconds.
  unfoldable pub get_id_token : ℕ → Site → Option Text × Site
  unfolding refresh_token_silently
  get_id_token now s = elim (or_null s.storage.access_token) [
    | none ↦ (none, s)
    | some token ↦
        if expires_soon payload_exp now token
        then (let (done, s') = refresh_token_silently s in
            if done then (s'.storage.access_token, s') else (none, s'))
        else (some token, s)
  ]

unfoldable pub send_password_reset_email : Text → Site → Result (Unit {0}) × Site
unfolding api
send_password_reset_email email s =
    let (result, s') = api (text "/api/v1/auth/reset-password") (reset_options email) s in
    elim result [ ok d ↦ (ok tt, s') | throw message ↦ (throw message, s') ]
