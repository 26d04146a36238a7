-- ===== src/SiteV2/Session/Versions.antt =====
-- The sessions of the two versions, side by side.
use veritas_vpn.Base.{
  ℕ, ◌≡◌, refl, sym, ap, Option, List, [], ◌∷◌, List, [], refl, ◌++◌, map, Text, arith,
}
use mathlib.Core.List.{map-append}
use veritas_vpn.Base.Net.{Request, receive}
use veritas_vpn.Api as Api
use veritas_vpn.Api.{Data, User}
use veritas_vpn.Site.Session as V1
use veritas_vpn.Site.Session.{
  Site, Options, read_answer, set_session, clear_session, on_auth_state_changed, unsubscribe,
  sign_out_handler,
}
use veritas_vpn.Site.Billing as V1Billing
use veritas_vpn.SiteV2.Billing as V2Billing
use veritas_vpn.SiteV2.Store as V2
use veritas_vpn.SiteV2.Session.Calls.{
  Call, nothing, log_in, log_out, forget, refresh, look, look_at_user, request, request_with_auth,
  token, subscribe, leave, reset, status, cancel, checkout, perform, perform_all, first, second,
}
use veritas_vpn.SiteV2.Session.{
  api, api_request, refresh_token_silently, after_failure, api_with_auth, get_id_token,
  send_password_reset_email, force_refresh_access_token,
}

-- The same session, where every request went to the first version's service.
abbrev pub to_service : Request → Request
to_service r = record r { url = Api.auth_api ++ r.url }

abbrev pub at_service : Site → Site
at_service s = record s { net = record (s.net) { sent = map to_service s.net.sent } }

abbrev pub both : {A : Type 0} → A × Site → A × Site
both (a, s) = (a, at_service s)

-- Recording one more request, with the answer that is read of it.
pub send-at_service :
    (r : Request) (s : Site)
    → (
      read_answer (receive s.net).0,
      record s {
        net = record (receive s.net).1 { sent = map to_service s.net.sent ++ (to_service r ∷ []) };
      },
    )
      ≡ both (
        read_answer (receive s.net).0,
        record s { net = record (receive s.net).1 { sent = s.net.sent ++ (r ∷ []) } },
      )
unfolding receive
send-at_service r s =
    ap
      (λ sent. (
        read_answer (receive s.net).0,
        record s { net = record (receive s.net).1 { sent = sent } },
      ))
      (sym (map-append to_service s.net.sent (r ∷ [])))

pub api-at_service :
    (path : Text) (o : Options) (s : Site) → V1.api path o (at_service s) ≡ both (api path o s)
unfolding V1.api api receive
api-at_service path o s = send-at_service (api_request path o) s

same-remove : (fn : ℕ) (ls : List ℕ) → V1.remove fn ls ≡ V2.remove fn ls
unfolding V1.remove V2.remove
same-remove fn [] = refl
same-remove fn (l ∷ ls) = rw (same-remove fn ls)

refresh-at_service :
    (s : Site) → V1.refresh_token_silently (at_service s) ≡ both (refresh_token_silently s)
unfolding V1.refresh_token_silently refresh_token_silently
refresh-at_service s = grind (arith, map-append)

reset-at_service :
    (email : Text) (s : Site)
    → V1.send_password_reset_email email (at_service s) ≡ both (send_password_reset_email email s)
unfolding V1.send_password_reset_email send_password_reset_email
reset-at_service email s = grind (arith, map-append)

after_failure-at_service :
    (path : Text) (o : Options) (message : Text) (s : Site)
    → V1.after_failure path o message (at_service s) ≡ both (after_failure path o message s)
unfolding V1.after_failure after_failure
after_failure-at_service path o message s = grind (arith, map-append)

api_with_auth-at_service :
    (path : Text) (o : Options) (s : Site)
    → V1.api_with_auth path o (at_service s) ≡ both (api_with_auth path o s)
unfolding V1.api_with_auth api_with_auth
api_with_auth-at_service path o s = grind (arith, map-append)

module _ (payload_exp : Text → Option ℕ) where
  pub get_id_token-at_service :
      (now : ℕ) (s : Site)
      → V1.get_id_token payload_exp now (at_service s) ≡ both (get_id_token payload_exp now s)
  unfolding V1.get_id_token get_id_token
  get_id_token-at_service now s = grind (arith, map-append)

  status-at_service :
      (now : ℕ) (s : Site)
      → V1Billing.fetch_billing_status payload_exp now (at_service s)
        ≡ both (V2Billing.fetch_billing_status payload_exp now s)
  unfolding V1Billing.fetch_billing_status V2Billing.fetch_billing_status
  status-at_service now s = grind (arith, map-append)

  cancel-at_service :
      (now : ℕ) (s : Site)
      → V1Billing.cancel_subscription payload_exp now (at_service s)
        ≡ both (V2Billing.cancel_subscription payload_exp now s)
  unfolding V1Billing.cancel_subscription V2Billing.cancel_subscription
  cancel-at_service now s = grind (arith, map-append)

  checkout-at_service :
      (now : ℕ) (s : Site)
      → V1Billing.start_premium_checkout payload_exp now (at_service s)
        ≡ both (V2Billing.start_premium_checkout payload_exp now s)
  unfolding V1Billing.start_premium_checkout V2Billing.start_premium_checkout
  checkout-at_service now s = grind (arith, map-append)

  perform-at_service :
      (c : Call) (s : Site)
      → perform (first payload_exp) c (at_service s) ≡ both (perform (second payload_exp) c s)
  unfolding perform
  perform-at_service (log_in user access again) s =
      unfold V1.set_session in unfold V2.set_session in refl
  perform-at_service log_out s = unfold V1.sign_out_handler in unfold V2.sign_out_handler in refl
  perform-at_service forget s = unfold V1.clear_session in unfold V2.clear_session in refl
  perform-at_service look s = unfold V1.is_logged_in in unfold V2.is_logged_in in refl
  perform-at_service look_at_user s =
      unfold V1.current_user in unfold V2.current_user in ground arith
  perform-at_service refresh s =
      unfold V1.force_refresh_access_token force_refresh_access_token in
      ground (arith, refresh-at_service s)
  perform-at_service (request path o) s = ground (arith, api-at_service path o s)
  perform-at_service (request_with_auth path o) s =
      ground (arith, api_with_auth-at_service path o s)
  perform-at_service (token now) s = ground (arith, get_id_token-at_service now s)
  perform-at_service (subscribe fn) s =
      unfold V1.on_auth_state_changed in unfold V2.on_auth_state_changed in ground arith
  perform-at_service (leave fn) s =
      unfold V1.unsubscribe in
      unfold V2.unsubscribe in
      ap (λ ls. (nothing, at_service (record s { listeners = ls }))) (same-remove fn s.listeners)
  perform-at_service (reset email) s = ground (arith, reset-at_service email s)
  perform-at_service (status now) s = ground (arith, status-at_service now s)
  perform-at_service (cancel now) s = ground (arith, cancel-at_service now s)
  perform-at_service (checkout now) s = ground (arith, checkout-at_service now s)

  -- Whatever is called of auth.js and billing.js, in whatever order, whatever was sent before and whatever the
  -- servers answer, the two versions give their callers the same, keep the same session and call the same
  -- listeners; the first one sends to its service what the second one sends to the site's own address.
  pub perform_all-at_service :
      (cs : List Call) (s : Site)
      → perform_all (first payload_exp) cs (at_service s)
        ≡ both (perform_all (second payload_exp) cs s)
  unfolding perform_all
  perform_all-at_service [] s = refl
  perform_all-at_service (c ∷ cs) s =
      let done = perform (second payload_exp) c s in
      rw (perform-at_service c s) (ap (λ r. (done.0 ∷ r.0, r.1)) (perform_all-at_service cs done.1))
