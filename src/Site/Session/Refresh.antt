-- ===== src/Site/Session/Refresh.antt =====
-- `refreshTokenSilently`, `getIdToken` and `apiWithAuth` of website/js/auth.js, lines 67-156, on
-- every branch.
use veritas_vpn.Base.{
  List, [], ◌∷◌, Bool, ◌||◌, includes, throw, refl, ℕ, ◌+◌, ◌≤◌, ◌≡◌, true, false, Option, none,
  some, ◌++◌, map, Text, text, or_null, text_of, Result, ok, arith, length, length-snoc,
}
use mathlib.Core.Path.{subst}
use veritas_vpn.Base.Net.{Request}
use veritas_vpn.Api.{User, Data}
use veritas_vpn.Site.Token.{expires_soon}
use veritas_vpn.Site.Session.{
  json, LocalStorage, Site, Options, api, api_request, restore_session, refresh_options,
  refresh_token_silently, api_with_auth, get_id_token,
}

abbrev refresh_answer : Text → Site → Result Data
refresh_answer rt s = (api (text "/api/v1/auth/refresh") (refresh_options rt) s).0

abbrev pub no_storage : LocalStorage
no_storage = record { user = none; access_token = none; refresh_token = none }

-- Whatever fails, a refresh that had a token and reports failure leaves nothing of the session
-- behind: the three stored items and the current user are gone, and every listener was called once
-- with no user.
pub refresh_failure_clears :
    (s : Site) (rt : Text)
    → or_null s.storage.refresh_token ≡ some rt
    → (refresh_token_silently s).0 ≡ false
    → ((refresh_token_silently s).1.storage ≡ no_storage)
      × ((refresh_token_silently s).1.current_user ≡ none)
      × ((refresh_token_silently s).1.auth_ready ≡ true)
      × ((refresh_token_silently s).1.calls ≡ s.calls ++ map (λ fn. (fn, none)) s.listeners)
unfolding refresh_token_silently
refresh_failure_clears s rt h failed = ground arith

-- With a stored user, a refresh that the server grants stores the user again with both new tokens
-- and reports success.
pub refresh_success_stores :
    (s : Site) (rt : Text) (user : User) (d : Data)
    → or_null s.storage.refresh_token ≡ some rt
    → restore_session s ≡ some user
    → refresh_answer rt s ≡ ok d
    → ((refresh_token_silently s).0 ≡ true)
      × ((refresh_token_silently s).1.storage ≡ record {
        user = some (json user);
        access_token = some (text_of d.access_token);
        refresh_token = some (text_of d.refresh_token);
      })
      × ((refresh_token_silently s).1.current_user ≡ some user)
unfolding refresh_token_silently
refresh_success_stores s rt user d h stored granted = ground arith

-- With no readable stored user, a refresh that the server grants reports success and stores neither
-- of the new tokens.
pub refresh_without_user_keeps_tokens :
    (s : Site) (rt : Text) (d : Data)
    → or_null s.storage.refresh_token ≡ some rt
    → restore_session s ≡ none
    → refresh_answer rt s ≡ ok d
    → ((refresh_token_silently s).0 ≡ true) × ((refresh_token_silently s).1.storage ≡ s.storage)
unfolding refresh_token_silently
refresh_without_user_keeps_tokens s rt d h missing granted = ground arith

api_sends :
    (path : Text) (o : Options) (s : Site)
    → length (api path o s).1.net.sent ≡ length s.net.sent + 1
unfolding api
api_sends path o s = length-snoc s.net.sent _

refresh_sends : (s : Site) → length (refresh_token_silently s).1.net.sent ≤ length s.net.sent + 1
unfolding refresh_token_silently
refresh_sends s = grind (arith, length-snoc)

abbrev pub with_token : Text → Options → Options
with_token token o = record o { authorization = some (text "Bearer " ++ token) }

-- The requests that were sent before, and those that `apiWithAuth` may add to them: none; the request; a
-- refresh after it, which fails; and the request again after a refresh that does not.
pub data Sends (path : Text) (o : Options) (s after : Site) : List Request → Type 0 where
  nothing : or_null s.storage.access_token ≡ none → Sends path o s after s.net.sent
  once :
      (token : Text)
      → or_null s.storage.access_token ≡ some token
      → Sends path o s after (s.net.sent ++ (api_request path (with_token token o) ∷ []))
  renewed :
      (token rt : Text)
      → or_null s.storage.access_token ≡ some token
      → or_null s.storage.refresh_token ≡ some rt
      → (refresh_token_silently (api path (with_token token o) s).1).0 ≡ false
      → Sends path o s after (
          (s.net.sent ++ (api_request path (with_token token o) ∷ []))
          ++ (api_request (text "/api/v1/auth/refresh") (refresh_options rt) ∷ []))
  again :
      (token rt : Text)
      → or_null s.storage.access_token ≡ some token
      → or_null s.storage.refresh_token ≡ some rt
      → (refresh_token_silently (api path (with_token token o) s).1).0 ≡ true
      → Sends path o s after (
          ((s.net.sent ++ (api_request path (with_token token o) ∷ []))
            ++ (api_request (text "/api/v1/auth/refresh") (refresh_options rt) ∷ []))
          ++ (api_request path (with_token (text_of after.storage.access_token) o) ∷ []))

module _ (path : Text) (o : Options) (s : Site) where
  abbrev after_all : Site
  after_all = (api_with_auth path o s).1

  abbrev is_expired : Text → Bool
  is_expired message = includes message (text "401") || includes message (text "invalid token")

  module _ (token : Text) (there : or_null s.storage.access_token ≡ some token) where
    abbrev tried : Result Data × Site
    tried = api path (with_token token o) s

    sends_renewed :
        (message rt : Text) (b : Bool)
        → tried.0 ≡ throw message
        → is_expired message ≡ true
        → or_null s.storage.refresh_token ≡ some rt
        → (refresh_token_silently tried.1).0 ≡ b
        → Sends path o s after_all after_all.net.sent
    unfolding api_with_auth
    sends_renewed message rt true e x r k =
        subst (Sends path o s after_all) (ground arith) (again token rt there r k)
    sends_renewed message rt false e x r k =
        subst (Sends path o s after_all) (ground arith) (renewed token rt there r k)

    sends_refused :
        (message : Text) (rt : Option Text)
        → tried.0 ≡ throw message
        → is_expired message ≡ true
        → or_null s.storage.refresh_token ≡ rt
        → Sends path o s after_all after_all.net.sent
    unfolding api_with_auth
    sends_refused message (some rt) e x r =
        sends_renewed message rt (refresh_token_silently tried.1).0 e x r refl
    sends_refused message none e x r =
        subst (Sends path o s after_all) (ground arith) (once token there)

    sends_failed :
        (message : Text) (b : Bool)
        → tried.0 ≡ throw message
        → is_expired message ≡ b
        → Sends path o s after_all after_all.net.sent
    unfolding api_with_auth
    sends_failed message true e x = sends_refused message (or_null s.storage.refresh_token) e x refl
    sends_failed message false e x =
        subst (Sends path o s after_all) (ground arith) (once token there)

    sends_tried : (r : Result Data) → tried.0 ≡ r → Sends path o s after_all after_all.net.sent
    unfolding api_with_auth
    sends_tried (ok d) e = subst (Sends path o s after_all) (ground arith) (once token there)
    sends_tried (throw message) e = sends_failed message (is_expired message) e refl

  sends_with :
      (token : Option Text)
      → or_null s.storage.access_token ≡ token
      → Sends path o s after_all after_all.net.sent
  unfolding api_with_auth
  sends_with none e = subst (Sends path o s after_all) (ground arith) (nothing e)
  sends_with (some token) e = sends_tried token e (api path (with_token token o) s).0 refl

  -- A request with the token is retried at most once, and only after a refresh that does not fail. Without a
  -- token `apiWithAuth` sends nothing; with one it sends the request under it, and then nothing more, or the
  -- refresh under the stored refresh token, and after that, where the refresh does not fail, the request once
  -- more, under the token that is stored then.
  pub api_with_auth_sends :
      Sends path o s (api_with_auth path o s).1 (api_with_auth path o s).1.net.sent
  api_with_auth_sends = sends_with (or_null s.storage.access_token) refl

module _ (payload_exp : Text → Option ℕ) where
  -- `getIdToken` gives no other token than the one that is stored when it returns.
  pub get_id_token-stored :
      (now : ℕ) (s : Site) (t : Text)
      → (get_id_token payload_exp now s).0 ≡ some t
      → (get_id_token payload_exp now s).1.storage.access_token ≡ some t
  unfolding get_id_token
  get_id_token-stored now s t h = ground arith

  -- A token that does not expire within a minute is given as it is, and nothing is sent.
  pub get_id_token_fresh :
      (now : ℕ) (s : Site) (t : Text)
      → or_null s.storage.access_token ≡ some t
      → expires_soon payload_exp now t ≡ false
      → get_id_token payload_exp now s ≡ (some t, s)
  unfolding get_id_token
  get_id_token_fresh now s t h fresh = ground arith
