-- ===== src/Site/Account.antt =====
-- website/account/js/account-app.js: the account page. The HTML is kept by its parts that vary.
pub mod Laws
pub mod Keeps
pub mod Fresh
pub mod Actions
pub mod Runs
pub mod Async
pub mod Races
pub mod Gone
pub mod Alone
pub mod Nav
use veritas_vpn.Base.{
  ℕ, ◌≡◌, Bool, true, false, not, ◌&&◌, ◌||◌, Option, none, some, List, [], ◌∷◌, ◌++◌, Text, text,
  text_eq, starts_with, is_truthy, or_text, or_else, or_null, text_of, is_true, if◌then◌else◌,
  Result, ok, throw,
}
use veritas_vpn.Api.{User, Data, empty_data}
use veritas_vpn.Site.Session.{
  Site, current_user, on_auth_state_changed, sign_out_handler, send_password_reset_email,
}
use veritas_vpn.Site.AccountView.{Page, premium_of, page_of}
use veritas_vpn.Site.Billing.{fetch_billing_status, start_premium_checkout, cancel_subscription}

pub data Kind : Type 0 where
  fine error : Kind

pub record Flash : Type 0 where
  pub message : Text
  pub kind : Kind

-- The page's variables and what it shows. `content` is none while it says that it loads.
pub record Account : Type 0 where
  pub site : Site
  pub billing_status : Option Data
  pub flash : Option Flash
  pub hash : Text
  pub active_nav : Text
  pub content : Option Page
  pub shown_flash : Option Flash
  pub upgrade_hidden : Bool
  pub email_shown : Text
  pub shell_hidden : Bool
  pub href : Option Text
  pub opened : List Text

-- `window.location.hash.replace(/^#/, '')`.
drop_hash : Text → Text
drop_hash [] = []
drop_hash (c ∷ s) = if starts_with (c ∷ s) (text "#") then s else c ∷ s

unfoldable pub route : Text → Text
unfolding drop_hash
route location_hash =
    let hash = or_text (drop_hash location_hash) (text "/") in
    if starts_with hash (text "/") then hash else text "/" ++ hash

-- What `refreshBilling` does with the answer.
unfoldable pub billing_loaded : Result Data → Account → Result (Unit {0}) × Account
billing_loaded (throw message) a = (throw message, a)
billing_loaded (ok d) a =
    (ok tt, record a { billing_status = some d; upgrade_hidden = is_true d.is_premium })

-- `locale_date` is `new Date(iso).toLocaleDateString(…)`.
module _ (locale_date : Text → Text) where
  unfoldable pub render : Account → Account
  unfolding route page_of current_user
  render a = elim (current_user a.site) [
    | none ↦ record a { active_nav = route a.hash }
    | some user ↦ record a {
      active_nav = route a.hash;
      content = some (page_of locale_date (route a.hash) user a.billing_status);
      shown_flash = a.flash;
      flash = none;
    }
  ]

  unfoldable pub show_flash : Text → Kind → Account → Account
  show_flash message kind a = record a { flash = some (record { message = message; kind = kind }) }

  -- The end of `onAction`'s `catch`.
  unfoldable pub fail_with : Text → Account → Account
  unfolding show_flash render
  fail_with message a = render (show_flash (or_text message (text "Something went wrong")) error a)

  unfoldable pub checkout_started : Result Text → Account → Account
  unfolding fail_with
  checkout_started (ok url) a = record a { opened = a.opened ++ (url ∷ []) }
  checkout_started (throw message) a = fail_with message a

  unfoldable pub refreshed : Result (Unit {0}) × Account → Account
  unfolding fail_with render
  refreshed (ok u, a) = render a
  refreshed (throw message, a) = fail_with message a

  -- `onAuthStateChanged`'s callback after its `await`.
  unfoldable pub loaded : Result (Unit {0}) × Account → Account
  unfolding render show_flash
  loaded (ok u, a) = render a
  loaded (throw message, a) =
      render
        (record (show_flash (or_text message (text "Could not load subscription status")) error a) {
          billing_status =
              some (record empty_data { is_premium = some false; status = some (text "unknown") });
        })

  module _ (payload_exp : Text → Option ℕ) (now : ℕ) where
    unfoldable pub refresh_billing : Account → Result (Unit {0}) × Account
    unfolding fetch_billing_status billing_loaded
    refresh_billing a =
        let (result, site) = fetch_billing_status payload_exp now a.site in
        billing_loaded result (record a { site = site })

    unfoldable pub act_checkout : Account → Account
    unfolding start_premium_checkout checkout_started
    act_checkout a =
        let (result, site) = start_premium_checkout payload_exp now a.site in
        checkout_started result (record a { site = site })

    unfoldable pub cancelled : Result Data → Account → Account
    unfolding refreshed show_flash refresh_billing fail_with
    cancelled (ok d) a =
        refreshed (refresh_billing (show_flash (text "Premium will cancel at period end.") fine a))
    cancelled (throw message) a = fail_with message a

    -- `confirmed` is the answer of the user.
    unfoldable pub act_cancel : Bool → Account → Account
    unfolding cancel_subscription cancelled
    act_cancel confirmed a =
        let (result, site) = cancel_subscription payload_exp now a.site in
        if confirmed then cancelled result (record a { site = site }) else a

    unfoldable pub on_user : Option User → Account → Account
    unfolding loaded refresh_billing
    on_user none a = record a { href = some (text "/?signin=1") }
    on_user (some user) a = loaded (
        refresh_billing (record a {
          email_shown = or_else user.email (text_of user.account_id);
          shell_hidden = false;
        }))

  unfoldable pub reset_sent : Result (Unit {0}) → Account → Account
  unfolding render show_flash fail_with
  reset_sent (ok u) a = render (show_flash (text "Password reset email sent.") fine a)
  reset_sent (throw message) a = fail_with message a

  abbrev pub email_of : Option User → Option Text
  email_of none = none
  email_of (some user) = or_null user.email

  unfoldable pub act_reset_password : Account → Account
  unfolding current_user send_password_reset_email reset_sent
  act_reset_password a = elim (email_of (current_user a.site)) [
    | none ↦ a
    | some email ↦
        let (result, site) = send_password_reset_email email a.site in
        reset_sent result (record a { site = site })
  ]

unfoldable pub act_sign_out : Account → Account
unfolding sign_out_handler
act_sign_out a = record a { site = sign_out_handler a.site; href = some (text "/") }
