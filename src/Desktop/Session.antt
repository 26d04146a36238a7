-- ===== src/Desktop/Session.antt =====
-- The session of the desktop client: clients/desktop/src/auth.ts and the account form of App.tsx.
use veritas_vpn.Base.{
  ◌≡◌, true, false, some, [], ◌∷◌, ◌++◌, Text, text, or_null, text_of, includes-append,
  to_lower_case, arith, ok,
}
use veritas_vpn.Api.{User, Data}
use veritas_vpn.Site.Session.{json}
use veritas_vpn.Site.Session.Invariant.{IsWhole}
use veritas_vpn.Desktop.Auth.{
  Client, humanize_error, auth_api_call, get_stored_user, refresh_session, sign_in, sign_up,
  sign_in_with_account_id, register_anonymous,
}
use veritas_vpn.Desktop.Attempt.{Desktop}
use veritas_vpn.Desktop.Handlers.{handle_auth}

-- A message that holds the service's refusal of a password, in any case and whatever else it says, is
-- shown as one.
pub humanize_error_refusal :
    (before after message : Text)
    → to_lower_case message ≡ before ++ (text "incorrect email or password" ++ after)
    → humanize_error message ≡ text "Incorrect email or password."
unfolding humanize_error
humanize_error_refusal before after message h =
    ground (arith, includes-append before (text "incorrect email or password") after)

-- Unlike the site's, a refresh of the desktop client that reports failure, for whatever reason, leaves
-- the stored session as it was.
pub refresh_session_failed :
    (c : Client) → (refresh_session c).0 ≡ false → (refresh_session c).1.storage ≡ c.storage
unfolding refresh_session
refresh_session_failed c h = ground arith

-- A refresh that the server grants to a stored user reports success and stores the user again with
-- both new tokens.
pub refresh_session_granted :
    (c : Client) (rt : Text) (user : User) (d : Data)
    → or_null c.storage.refresh_token ≡ some rt
    → get_stored_user c ≡ some user
    → (auth_api_call (text "/api/v1/auth/refresh") ((text "refresh_token", rt) ∷ []) c).0 ≡ ok d
    → ((refresh_session c).0 ≡ true)
      × ((refresh_session c).1.storage ≡ record {
        user = some (json user);
        access_token = some (text_of d.access_token);
        refresh_token = some (text_of d.refresh_token);
      })
unfolding refresh_session
refresh_session_granted c rt user d h there granted = ground arith

-- Each of the four submissions of the account form, granted or refused, keeps user and tokens stored
-- together or not at all, and ends with the form not loading.
pub handle_auth-IsWhole :
    (d : Desktop)
    → IsWhole d.client.storage
    → IsWhole (handle_auth d).client.storage × ((handle_auth d).loading ≡ false)
unfolding handle_auth sign_in sign_up sign_in_with_account_id register_anonymous
handle_auth-IsWhole d h = ground arith
