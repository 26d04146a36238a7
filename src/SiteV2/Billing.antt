-- ===== src/SiteV2/Billing.antt =====
-- The requests of website/js-v2/billing.js, lines 1-46: the service's address is empty there.
use veritas_vpn.Base.{
  ℕ, not, Option, none, some, List, [], ◌∷◌, ◌++◌, Text, text, or_null, Result, throw,
}
use veritas_vpn.Base.Net.{Method, get, post, Request, fetch}
use veritas_vpn.Api.{Data}
use veritas_vpn.Site.Session.{Site}
use veritas_vpn.Site.Billing.{is_get, checkout_url}
use veritas_vpn.SiteV2.Session.{get_id_token, read_answer}

abbrev pub billing_api : Text
billing_api = []

-- The request of `api`; its content type is set for all methods but GET (no caller uses HEAD).
abbrev pub billing_request : Text → Method → List (Text × Text) → Text → Request
billing_request path method fields token = record {
  method = method;
  url = billing_api ++ path;
  authorization = some (text "Bearer " ++ token);
  content_json = not (is_get method);
  body = fields;
}

module _ (payload_exp : Text → Option ℕ) (now : ℕ) where
  unfoldable pub api : Text → Method → List (Text × Text) → Site → Result Data × Site
  unfolding get_id_token fetch read_answer
  api path method fields s =
      let (token, s') = get_id_token payload_exp now s in
      elim (or_null token) [
        | none ↦ (throw (text "Not signed in"), s')
        | some t ↦
            let (answer, net) = fetch (billing_request path method fields t) s'.net in
            (read_answer answer, record s' { net = net })
      ]

  unfoldable pub fetch_billing_status : Site → Result Data × Site
  unfolding api
  fetch_billing_status s = api (text "/api/v1/billing/status") get [] s

  unfoldable pub cancel_subscription : Site → Result Data × Site
  unfolding api
  cancel_subscription s = api (text "/api/v1/billing/cancel") post [] s

  -- The request of `startPremiumCheckout`.
  unfoldable pub subscribe : Site → Result Data × Site
  unfolding api
  subscribe s =
      api (text "/api/v1/billing/subscribe") post
        ((text "tier", text "premium") ∷ (text "payment_method", text "btcpay") ∷ []) s

  -- `startPremiumCheckout`; the address of a success is the one that it opens in a new window.
  unfoldable pub start_premium_checkout : Site → Result Text × Site
  unfolding subscribe checkout_url
  start_premium_checkout s = let (result, s') = subscribe s in (checkout_url result, s')
