-- ===== src/Site/Account/Laws.antt =====
-- The account page on every branch: website/account/js/account-app.js.
use veritas_vpn.Base.{
  ℕ, ◌≡◌, refl, true, false, not, Option, none, some, [], ◌∷◌, ◌++◌, Text, text, starts_with,
  or_text, or_null, is_some, arith, throw,
}
use veritas_vpn.Api.{User, Data}
use veritas_vpn.Site.Session.{Site, current_user, on_auth_state_changed, restore_session}
use veritas_vpn.Site.Session.Refresh.{no_storage}
use veritas_vpn.Site.Billing.{fetch_billing_status, cancel_subscription}
use veritas_vpn.Site.AccountView.{premium_of, render_home, render_subscription}
use veritas_vpn.Site.Account.{
  Account, error, fine, route, render, show_flash, on_user, act_cancel, act_reset_password,
  act_sign_out,
}

slash_starts : (s : Text) → starts_with (text "/" ++ s) (text "/") ≡ true
unfolding text starts_with
slash_starts s = ground arith

-- Every address leads to a path that begins with a slash.
pub route-starts_with : (hash : Text) → starts_with (route hash) (text "/") ≡ true
unfolding route
route-starts_with hash = grind (arith, slash_starts)

-- The link `#` followed by a path leads to that path.
pub route_link :
    (path : Text) → starts_with path (text "/") ≡ true → route (text "#" ++ path) ≡ path
unfolding route text starts_with
route_link path h = ground arith

module _ (locale_date : Text → Text) where
  -- The subscription page offers either to pay or to cancel, never both and never neither, and the
  -- home page offers to pay exactly where it does. Both name the same plan.
  pub render_subscription_offers :
      (status : Option Data)
      → (is_some (render_subscription locale_date status).checkout
          ≡ not (render_subscription locale_date status).can_cancel)
        × (is_some (render_home locale_date status).checkout
            ≡ is_some (render_subscription locale_date status).checkout)
        × ((render_home locale_date status).plan ≡ (render_subscription locale_date status).plan)
  unfolding render_home render_subscription
  render_subscription_offers status = ground arith

  -- What was flashed is shown by the next rendering for a signed-in user, and by no later one.
  pub render_flashes_once :
      (message : Text) (a : Account) (user : User)
      → current_user a.site ≡ some user
      → ((render locale_date (show_flash locale_date message fine a)).shown_flash
          ≡ some (record { message = message; kind = fine }))
        × ((render locale_date
              (render locale_date (show_flash locale_date message fine a))).shown_flash
            ≡ none)
  unfolding render show_flash
  render_flashes_once message a user h = ground arith

  module _ (payload_exp : Text → Option ℕ) (now : ℕ) where
    -- A cancellation that the user does not confirm changes nothing and sends nothing.
    pub act_cancel_unconfirmed : (a : Account) → act_cancel locale_date payload_exp now false a ≡ a
    unfolding act_cancel
    act_cancel_unconfirmed a = refl

    -- Where the server refuses the cancellation, or it cannot be sent, the page keeps the billing
    -- status that it had and shows the error.
    pub act_cancel_refused :
        (a : Account) (message : Text) (user : User)
        → (cancel_subscription payload_exp now a.site).0 ≡ throw message
        → current_user (cancel_subscription payload_exp now a.site).1 ≡ some user
        → ((act_cancel locale_date payload_exp now true a).billing_status ≡ a.billing_status)
          × ((act_cancel locale_date payload_exp now true a).shown_flash
              ≡ some (record {
                message = or_text message (text "Something went wrong");
                kind = error;
              }))
    unfolding act_cancel
    act_cancel_refused a message user h there = ground arith

    -- Where the billing status of a signed-in user cannot be loaded the page shows the free plan with
    -- the error, and stays.
    pub on_user_without_status :
        (a : Account) (user u : User) (message : Text)
        → (fetch_billing_status payload_exp now a.site).0 ≡ throw message
        → current_user (fetch_billing_status payload_exp now a.site).1 ≡ some u
        → (premium_of (on_user locale_date payload_exp now (some user) a).billing_status ≡ false)
          × ((on_user locale_date payload_exp now (some user) a).shown_flash
              ≡ some (record {
                message = or_text message (text "Could not load subscription status");
                kind = error;
              }))
          × ((on_user locale_date payload_exp now (some user) a).shell_hidden ≡ false)
          × ((on_user locale_date payload_exp now (some user) a).href ≡ a.href)
    unfolding on_user
    on_user_without_status a user u message h there = ground arith

  -- A user without an address is sent no reset: nothing changes and nothing is sent.
  pub act_reset_password_anonymous :
      (a : Account) (user : User)
      → current_user a.site ≡ some user
      → or_null user.email ≡ none
      → act_reset_password locale_date a ≡ a
  unfolding act_reset_password
  act_reset_password_anonymous a user h nobody = ground arith

-- Signing out on the account page leaves nothing of the session and leads home.
pub act_sign_out_clears :
    (a : Account)
    → ((act_sign_out a).site.storage ≡ no_storage)
      × ((act_sign_out a).site.current_user ≡ none)
      × ((act_sign_out a).href ≡ some (text "/"))
unfolding act_sign_out
act_sign_out_clears a = ground arith

-- On a page that was opened with no stored user the listener that is added is not called: the callback
-- of the account page, which would lead to the sign-in, does not run.
pub on_auth_state_changed_silent :
    (fn : ℕ) (s : Site)
    → s.auth_ready ≡ false
    → restore_session s ≡ none
    → ((on_auth_state_changed fn s).calls ≡ s.calls)
      × ((on_auth_state_changed fn s).listeners ≡ s.listeners ++ (fn ∷ []))
unfolding on_auth_state_changed
on_auth_state_changed_silent fn s h nobody = ground arith
