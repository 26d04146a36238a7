-- ===== src/Site/Billing/Laws.antt =====
-- What the billing functions of website/js/billing.js do on every branch.
use veritas_vpn.Base.{
  ℕ, ◌≡◌, true, false, not, ◌&&◌, Option, none, List, [], ◌∷◌, ◌++◌, Text, text, or_text, or_null,
  is_truthy, arith, ok, throw,
}
use veritas_vpn.Base.Net.{Method}
use veritas_vpn.Site.Session.{Site}
use veritas_vpn.Site.Modes.{signin}
use veritas_vpn.Site.SignIn.{has_token}
use veritas_vpn.Site.Billing.{Shop, api, start_premium_checkout, refresh_status, on_checkout}

module _ (payload_exp : Text → Option ℕ) (now : ℕ) where
  -- With no token no billing request leaves: the call fails and the session stays as it is.
  pub api_signed_out :
      (path : Text) (method : Method) (fields : List (Text × Text)) (s : Site)
      → or_null s.storage.access_token ≡ none
      → api payload_exp now path method fields s ≡ (throw (text "Not signed in"), s)
  unfolding api
  api_signed_out path method fields s h = ground arith

  -- A checkout that starts has an address that is not empty.
  pub start_premium_checkout_url :
      (s : Site) (url : Text)
      → (start_premium_checkout payload_exp now s).0 ≡ ok url
      → is_truthy url ≡ true
  unfolding start_premium_checkout
  start_premium_checkout_url s url h = ground arith

  -- After the status was refreshed the upgrade buttons are hidden exactly where the badge is shown
  -- and says Premium, whether the user is signed in or not and whatever the server answers.
  pub refresh_status_shows :
      (x : Shop)
      → (refresh_status payload_exp now x).plan.upgrade_hidden ≡ (
          not (refresh_status payload_exp now x).plan.badge_hidden
          && (refresh_status payload_exp now x).plan.badge_is_premium)
  unfolding refresh_status
  refresh_status_shows x = ground arith

  -- A click on a checkout button without a token asks for a sign-in: the window opens in that mode,
  -- nothing is sent or opened, and the button stays as it is.
  pub on_checkout_signed_out :
      (x : Shop)
      → has_token x.app ≡ false
      → ((on_checkout payload_exp now x).app.form.is_open ≡ true)
        × ((on_checkout payload_exp now x).app.form.mode ≡ signin)
        × ((on_checkout payload_exp now x).app.site ≡ x.app.site)
        × ((on_checkout payload_exp now x).opened ≡ x.opened)
        × ((on_checkout payload_exp now x).alerts ≡ x.alerts)
        × ((on_checkout payload_exp now x).button ≡ x.button)
  unfolding on_checkout
  on_checkout_signed_out x h = ground arith

  -- A checkout that starts opens its page in a new window, once, with no message, and leaves the
  -- button disabled with the text of the start.
  pub on_checkout_opens :
      (x : Shop) (url : Text)
      → has_token x.app ≡ true
      → (start_premium_checkout payload_exp now x.app.site).0 ≡ ok url
      → ((on_checkout payload_exp now x).opened ≡ x.opened ++ (url ∷ []))
        × ((on_checkout payload_exp now x).alerts ≡ x.alerts)
        × ((on_checkout payload_exp now x).button.disabled ≡ true)
        × ((on_checkout payload_exp now x).button.label ≡ text "Starting checkout…")
  unfolding on_checkout
  on_checkout_opens x url h started = ground arith

  -- A checkout that fails opens nothing, shows one message and gives the button back as it was.
  pub on_checkout_fails :
      (x : Shop) (message : Text)
      → has_token x.app ≡ true
      → (start_premium_checkout payload_exp now x.app.site).0 ≡ throw message
      → ((on_checkout payload_exp now x).opened ≡ x.opened)
        × ((on_checkout payload_exp now x).alerts
            ≡ x.alerts ++ (or_text message (text "Checkout failed") ∷ []))
        × ((on_checkout payload_exp now x).button.disabled ≡ false)
        × ((on_checkout payload_exp now x).button.label ≡ x.button.label)
  unfolding on_checkout
  on_checkout_fails x message h failed = ground arith
