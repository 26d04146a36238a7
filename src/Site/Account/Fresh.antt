-- ===== src/Site/Account/Fresh.antt =====
-- Each handler of the account page leaves no stale page: website/account/js/account-app.js.
use veritas_vpn.Base.{
  ℕ, ◌≡◌, ◌⊎◌, Bool, true, false, Option, none, some, if◌then◌else◌, Text, text, text_eq, or_text,
  or_else, text_of, Result, ok, throw, arith,
}
use veritas_vpn.Api.{User, Data, empty_data}
use veritas_vpn.Site.Session.{Site, current_user, send_password_reset_email}
use veritas_vpn.Site.Session.Invariant.{IsConsistent}
use veritas_vpn.Site.Billing.{fetch_billing_status, start_premium_checkout, cancel_subscription}
use veritas_vpn.Site.AccountView.{page_of}
use veritas_vpn.Site.Account.{
  Account, route, render, on_user, act_checkout, act_cancel, act_reset_password, act_sign_out,
  fail_with, show_flash, error, fine, checkout_started, reset_sent, email_of, cancelled, refreshed,
  refresh_billing, loaded, billing_loaded,
}
use veritas_vpn.Site.Account.Actions.{change_hash}
use veritas_vpn.Site.Account.Keeps.{Keeps, reset-Keeps, fetch-Keeps, checkout-Keeps, cancel-Keeps}

-- The page that is shown is the one of the address, the user and the billing status.
pub record IsFresh (locale_date : Text → Text) (a : Account) : Type 0 where
  pub consistent : IsConsistent a.site
  pub fresh :
      (user : User)
      → current_user a.site ≡ some user
      → (a.content ≡ none)
        ⊎ (a.content ≡ some (page_of locale_date (route a.hash) user a.billing_status))

module _ (locale_date : Text → Text) where
  render-IsFresh : (a : Account) → IsConsistent a.site → IsFresh locale_date (render locale_date a)
  unfolding render page_of
  render-IsFresh a h = ground arith

  pub unchanged-IsFresh :
      (a : Account) (s : Site)
      → IsFresh locale_date a
      → Keeps a.site s
      → IsFresh locale_date (record a { site = s })
  unchanged-IsFresh a s h k = ground arith

  pub fail_with-IsFresh :
      (message : Text) (a : Account)
      → IsConsistent a.site
      → IsFresh locale_date (fail_with locale_date message a)
  unfolding fail_with
  fail_with-IsFresh message a h =
      render-IsFresh
        (show_flash locale_date (or_text message (text "Something went wrong")) error a) h

  pub change_hash-IsFresh :
      (hash : Text) (a : Account)
      → IsFresh locale_date a
      → IsFresh locale_date (change_hash locale_date hash a)
  unfolding change_hash
  change_hash-IsFresh hash a h =
      elim (text_eq a.hash hash)
        as (λ same.
          IsFresh locale_date (if same then a else render locale_date (record a { hash = hash }))) [
            | true ↦ h
            | false ↦ render-IsFresh (record a { hash = hash }) h.consistent
          ]

  pub reset_sent-IsFresh :
      (r : Result (Unit {0})) (a : Account)
      → IsConsistent a.site
      → IsFresh locale_date (reset_sent locale_date r a)
  unfolding reset_sent
  reset_sent-IsFresh (ok u) a h =
      render-IsFresh (show_flash locale_date (text "Password reset email sent.") fine a) h
  reset_sent-IsFresh (throw message) a h = fail_with-IsFresh message a h

  pub act_reset_password-IsFresh :
      (a : Account) → IsFresh locale_date a → IsFresh locale_date (act_reset_password locale_date a)
  unfolding act_reset_password
  act_reset_password-IsFresh a h =
      elim (email_of locale_date (current_user a.site))
        as (λ to. IsFresh locale_date (elim to [
          | none ↦ a
          | some email ↦
              reset_sent locale_date (send_password_reset_email email a.site).0
                (record a { site = (send_password_reset_email email a.site).1 })
        ])) [
          | none ↦ h
          | some email ↦
              reset_sent-IsFresh (send_password_reset_email email a.site).0
                (record a { site = (send_password_reset_email email a.site).1 })
                (reset-Keeps email a.site h.consistent).0
        ]

  pub checkout_started-IsFresh :
      (r : Result Text) (a : Account)
      → IsFresh locale_date a
      → IsFresh locale_date (checkout_started locale_date r a)
  unfolding checkout_started
  checkout_started-IsFresh (ok url) a h = record { consistent = h.consistent; fresh = h.fresh }
  checkout_started-IsFresh (throw message) a h = fail_with-IsFresh message a h.consistent

  pub billing_loaded-IsConsistent :
      (r : Result Data) (a : Account)
      → IsConsistent a.site
      → IsConsistent (billing_loaded r a).1.site
  unfolding billing_loaded
  billing_loaded-IsConsistent (ok d) a h = h
  billing_loaded-IsConsistent (throw message) a h = h

  pub loaded-IsFresh :
      (r : Result (Unit {0})) (a : Account)
      → IsConsistent a.site
      → IsFresh locale_date (loaded locale_date (r, a))
  unfolding loaded show_flash
  loaded-IsFresh (ok u) a h = render-IsFresh a h
  loaded-IsFresh (throw message) a h =
      render-IsFresh
        (record (show_flash locale_date
          (or_text message (text "Could not load subscription status")) error a) {
            billing_status =
                some
                  (record empty_data { is_premium = some false; status = some (text "unknown") });
          })
        h

  pub refreshed-IsFresh :
      (r : Result (Unit {0})) (a : Account)
      → IsConsistent a.site
      → IsFresh locale_date (refreshed locale_date (r, a))
  unfolding refreshed
  refreshed-IsFresh (ok u) a h = render-IsFresh a h
  refreshed-IsFresh (throw message) a h = fail_with-IsFresh message a h

  module _ (payload_exp : Text → Option ℕ) (now : ℕ) where
    pub act_checkout-IsFresh :
        (a : Account)
        → IsFresh locale_date a
        → IsFresh locale_date (act_checkout locale_date payload_exp now a)
    unfolding act_checkout
    act_checkout-IsFresh a h =
        checkout_started-IsFresh (start_premium_checkout payload_exp now a.site).0
          (record a { site = (start_premium_checkout payload_exp now a.site).1 })
          (unchanged-IsFresh a (start_premium_checkout payload_exp now a.site).1 h
            (checkout-Keeps payload_exp now a.site h.consistent))

    refresh_billing-IsConsistent :
        (a : Account)
        → IsConsistent a.site
        → IsConsistent (refresh_billing locale_date payload_exp now a).1.site
    unfolding refresh_billing
    refresh_billing-IsConsistent a h =
        billing_loaded-IsConsistent (fetch_billing_status payload_exp now a.site).0
          (record a { site = (fetch_billing_status payload_exp now a.site).1 })
          (fetch-Keeps payload_exp now a.site h).0

    pub on_user-IsFresh :
        (u : Option User) (a : Account)
        → IsFresh locale_date a
        → IsFresh locale_date (on_user locale_date payload_exp now u a)
    unfolding on_user
    on_user-IsFresh none a h = record { consistent = h.consistent; fresh = h.fresh }
    on_user-IsFresh (some user) a h =
        let shown = record a {
          email_shown = or_else user.email (text_of user.account_id);
          shell_hidden = false;
        } in
        loaded-IsFresh (refresh_billing locale_date payload_exp now shown).0
          (refresh_billing locale_date payload_exp now shown).1
          (refresh_billing-IsConsistent shown h.consistent)

    cancelled-IsFresh :
        (r : Result Data) (a : Account)
        → IsConsistent a.site
        → IsFresh locale_date (cancelled locale_date payload_exp now r a)
    unfolding cancelled
    cancelled-IsFresh (ok d) a h =
        let flashed = show_flash locale_date (text "Premium will cancel at period end.") fine a in
        refreshed-IsFresh (refresh_billing locale_date payload_exp now flashed).0
          (refresh_billing locale_date payload_exp now flashed).1
          (refresh_billing-IsConsistent flashed h)
    cancelled-IsFresh (throw message) a h = fail_with-IsFresh message a h

    pub act_cancel-IsFresh :
        (confirmed : Bool) (a : Account)
        → IsFresh locale_date a
        → IsFresh locale_date (act_cancel locale_date payload_exp now confirmed a)
    unfolding act_cancel
    act_cancel-IsFresh false a h = h
    act_cancel-IsFresh true a h =
        cancelled-IsFresh (cancel_subscription payload_exp now a.site).0
          (record a { site = (cancel_subscription payload_exp now a.site).1 })
          (cancel-Keeps payload_exp now a.site h.consistent).0

pub act_sign_out-IsFresh :
    (locale_date : Text → Text) (a : Account)
    → IsFresh locale_date a
    → IsFresh locale_date (act_sign_out a)
unfolding act_sign_out current_user
act_sign_out-IsFresh locale_date a h = record { consistent = ground arith; fresh = ground arith }
