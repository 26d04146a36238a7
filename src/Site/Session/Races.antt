-- ===== src/Site/Session/Races.antt =====
-- `refreshTokenSilently` of website/js/auth.js, lines 97-115, as it runs: up to its `await`, and from
-- the answer on. In between, other code may sign out or start another refresh.
use veritas_vpn.Base.{
  ◌≡◌, ◌⊎◌, none, some, List, [], ◌∷◌, ◌++◌, map, Text, text, or_null, arith, Result, ok, throw,
}
use veritas_vpn.Base.Net.{Request, send, receive}
use veritas_vpn.Api.{User, Data}
use veritas_vpn.Site.Session.{
  Site, api_request, refresh_options, restore_session, read_answer, finish_refresh,
  sign_out_handler, refresh_token_silently,
}
use veritas_vpn.Site.Session.Refresh.{no_storage}

-- The session and the refresh tokens that were sent and not answered.
pub record Refreshing : Type 0 where
  pub site : Site
  pub waiting : List Text

abbrev pub refresh_request : Text → Request
refresh_request rt = api_request (text "/api/v1/auth/refresh") (refresh_options rt)

-- A call up to its `await`; with no token it ends at once.
unfoldable pub begin_refresh : Refreshing → Refreshing
unfolding send
begin_refresh r = elim (or_null site.storage.refresh_token) [
  | none ↦ r
  | some rt ↦ record r {
    site = record site { net = send (refresh_request rt) site.net };
    waiting = r.waiting ++ (rt ∷ []);
  }
]
  where
    open r use {site}

ended : List Text → Result Data → Refreshing → Refreshing
unfolding finish_refresh
ended [] result r = r
ended (rt ∷ rest) result r = record { site = (finish_refresh result r.site).1; waiting = rest }

-- The rest of the call that has waited longest.
unfoldable pub end_refresh : Result Data → Refreshing → Refreshing
unfolding ended
end_refresh result r = ended r.waiting result r

unfoldable pub sign_out : Refreshing → Refreshing
unfolding sign_out_handler
sign_out r = record r { site = sign_out_handler r.site }

-- With nothing in between, the two steps leave the session as the call in one piece does.
pub refresh-steps :
    (s : Site)
    → let asked = begin_refresh (record { site = s; waiting = [] }) in
      let (answer, net) = receive asked.site.net in
      (or_null s.storage.refresh_token ≡ none)
      ⊎ ((end_refresh
            (read_answer answer)
            (record asked { site = record (asked.site) { net = net } })).site
          ≡ (refresh_token_silently s).1)
unfolding begin_refresh end_refresh refresh_token_silently receive
refresh-steps s = ground arith

-- A refresh that is answered after a sign-out brings nothing of the session back, whatever the answer.
pub sign_out_wins :
    (r : Refreshing) (result : Result Data)
    → let s = (end_refresh result (sign_out (begin_refresh r))).site in
      (s.storage ≡ no_storage) × (s.current_user ≡ none) × (restore_session s ≡ none)
unfolding begin_refresh end_refresh sign_out restore_session
sign_out_wins r result = ground arith

-- `serve` is what the service answers to a refresh token after the tokens that it was sent before; a
-- token is good for one refresh.
module _ (serve : List Text → Text → Result Data) (refusal : Text)
    (once : (used : List Text) (rt : Text) → serve (rt ∷ used) rt ≡ throw refusal) where
  -- Two refreshes that run at once send the same token. The service grants the first and refuses the
  -- second, which drops the session: the user is signed out though the new tokens were good, and every
  -- listener is told so.
  pub two_refreshes :
      (s : Site) (rt : Text) (user : User) (d : Data) (used : List Text)
      → or_null s.storage.refresh_token ≡ some rt
      → restore_session s ≡ some user
      → serve used rt ≡ ok d
      → let asked = begin_refresh (begin_refresh (record { site = s; waiting = [] })) in
        let first = end_refresh (serve used rt) asked in
        let second = end_refresh (serve (rt ∷ used) rt) first in
        (asked.site.net.sent
          ≡ (s.net.sent ++ (refresh_request rt ∷ [])) ++ (refresh_request rt ∷ []))
        × (first.site.current_user ≡ some user)
        × (second.site.storage ≡ no_storage)
        × (second.site.current_user ≡ none)
        × (second.site.calls ≡ s.calls ++ map (λ fn. (fn, none)) s.listeners)
  unfolding begin_refresh end_refresh restore_session
  two_refreshes s rt user d used there stored granted = ground (arith, once used rt)
