-- ===== src/Site/Billing.antt =====
-- website/js/billing.js: requests with the token, the subscription and the buttons of the pages.
pub mod Laws
pub mod Races
use veritas_vpn.Base.{
  ℕ, ◌≡◌, Bool, true, false, not, ◌&&◌, Option, none, some, List, [], ◌∷◌, ◌++◌, Text, text,
  or_text, or_null, is_true, status_text, or_else, if◌then◌else◌, Result, ok, throw,
}
use veritas_vpn.Base.Net.{Method, get, post, Request, fetch, Answer}
use veritas_vpn.Api.{User, Data, billing_api}
use veritas_vpn.Site.Session.{Site, get_id_token, read_answer, current_user}
use veritas_vpn.Site.Modes.{signin}
use veritas_vpn.Site.SignIn.{App}
use veritas_vpn.Site.SignIn.Settle.{require_auth_or_open_modal}

abbrev pub is_get : Method → Bool
is_get get = true
is_get m = false

-- The request of `api`; its content type is set for all methods but GET (no caller uses HEAD).
abbrev pub billing_request : Text → Method → List (Text × Text) → Text → Request
billing_request path method fields token = record {
  method = method;
  url = billing_api ++ path;
  authorization = some (text "Bearer " ++ token);
  content_json = not (is_get method);
  body = fields;
}

-- What the page shows of the plan: the badge, if it is shown, and the upgrade buttons.
pub record Plan : Type 0 where
  pub badge_hidden : Bool
  pub badge_text : Text
  pub badge_is_premium : Bool
  pub upgrade_hidden : Bool

-- A button that starts the checkout.
pub record Button : Type 0 where
  pub disabled : Bool
  pub label : Text

-- A page with billing; `opened` are the addresses opened in new windows, `alerts` the messages.
pub record Shop : Type 0 where
  pub app : App
  pub plan : Plan
  pub button : Button
  pub opened : List Text
  pub alerts : List Text

-- The checkout page that the answer names, or the error.
unfoldable pub checkout_url : Result Data → Result Text
checkout_url (throw message) = throw message
checkout_url (ok d) = elim (or_null d.checkout_url) [
  | none ↦ throw (text "No checkout URL returned")
  | some url ↦ ok url
]

unfoldable pub set_plan_badge : Option Bool → Plan → Plan
set_plan_badge none p = record p { badge_hidden = true }
set_plan_badge (some premium) p = record p {
  badge_hidden = false;
  badge_text = if premium then text "Premium" else text "Free";
  badge_is_premium = premium;
}

unfoldable pub set_upgrade_buttons_visible : Bool → Plan → Plan
set_upgrade_buttons_visible visible p = record p { upgrade_hidden = not visible }

-- The plan after the answer to `fetchBillingStatus`; a failure is shown as the free plan.
unfoldable pub show_status : Result Data → Plan → Plan
unfolding set_plan_badge set_upgrade_buttons_visible
show_status (ok d) p =
    set_upgrade_buttons_visible (not (is_true d.is_premium))
      (set_plan_badge (some (is_true d.is_premium)) p)
show_status (throw message) p = set_upgrade_buttons_visible true (set_plan_badge (some false) p)

checked_out : Result Text → Text → Shop → Shop
checked_out (ok url) original x = record x {
  opened = x.opened ++ (url ∷ []);
  button = record { disabled = true; label = text "Starting checkout…" };
}
checked_out (throw message) original x = record x {
  alerts = x.alerts ++ (or_text message (text "Checkout failed") ∷ []);
  button = record { disabled = false; label = original };
}

module _ (payload_exp : Text → Option ℕ) (now : ℕ) where
  unfoldable pub api : Text → Method → List (Text × Text) → Site → Result Data × Site
  unfolding get_id_token fetch read_answer
  api path method fields s =
      let (token, s') = get_id_token payload_exp now s in
      elim (or_null token) [
        | none ↦ (throw (text "Not signed in"), s')
        | some t ↦
            let (answer, net) = fetch (billing_request path method fields t) s'.net in
            (read_answer answer, record s' { net = net })
      ]

  unfoldable pub fetch_billing_status : Site → Result Data × Site
  unfolding api
  fetch_billing_status s = api (text "/api/v1/billing/status") get [] s

  unfoldable pub cancel_subscription : Site → Result Data × Site
  unfolding api
  cancel_subscription s = api (text "/api/v1/billing/cancel") post [] s

  -- The request of `startPremiumCheckout`.
  unfoldable pub subscribe : Site → Result Data × Site
  unfolding api
  subscribe s =
      api (text "/api/v1/billing/subscribe") post
        ((text "tier", text "premium") ∷ (text "payment_method", text "btcpay") ∷ []) s

  -- `startPremiumCheckout`; the address of a success is the one that it opens in a new window.
  unfoldable pub start_premium_checkout : Site → Result Text × Site
  unfolding subscribe checkout_url
  start_premium_checkout s = let (result, s') = subscribe s in (checkout_url result, s')

  refresh_signed_in : Shop → Shop
  unfolding fetch_billing_status show_status
  refresh_signed_in x =
      let (result, site) = fetch_billing_status x.app.site in
      record x { app = record app { site = site }; plan = show_status result x.plan }
    where
      open x use {app}

  -- `refreshStatus`, also at every `veritas-auth-changed`.
  unfoldable pub refresh_status : Shop → Shop
  unfolding current_user refresh_signed_in
  refresh_status x = elim (current_user x.app.site) [
    | none ↦ record x { plan = set_upgrade_buttons_visible true (set_plan_badge none x.plan) }
    | some user ↦ refresh_signed_in x
  ]

  -- The click on a button `data-billing-checkout`.
  unfoldable pub on_checkout : Shop → Shop
  unfolding require_auth_or_open_modal start_premium_checkout checked_out
  on_checkout x =
      let (allowed, a) = require_auth_or_open_modal signin x.app in
      let (result, site) = start_premium_checkout a.site in
      if allowed
      then checked_out result x.button.label (record x { app = record a { site = site } })
      else record x { app = a }
