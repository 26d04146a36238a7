-- ===== src/Site/Account/Alone.antt =====
-- A handler of the account page with nothing in between: website/account/js/account-app.js, lines 309-386.
use veritas_vpn.Base.{
  ◌≡◌, ℕ, Bool, true, false, Option, none, some, Text, Result, ok, throw, refl, ap,
}
use veritas_vpn.Base.Waiting.{run_on}
use veritas_vpn.Api.{User, Data}
use veritas_vpn.Site.Session.{Site, current_user, send_password_reset_email}
use veritas_vpn.Site.Billing.{cancel_subscription, start_premium_checkout}
use veritas_vpn.Site.Account.{
  Account, on_user, act_checkout, act_cancel, act_reset_password, refresh_billing, cancelled,
  email_of, reset_sent,
}
use veritas_vpn.Site.Account.Actions.{
  Event, follow_link, click_upgrade, click_sign_out, act, auth_changed, checkout, cancel,
  reset_password, signout, Action, handle, on_action,
}
use veritas_vpn.Site.Account.Async.{
  begin, begin_action, begin_user, begin_reset, resume, call, resumed, cancelling, resetting,
}

-- The time that an event carries.
abbrev pub time_of : Event → ℕ
time_of (act now confirmed action) = now
time_of (auth_changed now) = now
time_of e = 0

module _ (locale_date : Text → Text) (payload_exp : Text → Option ℕ) where
  run_on-user :
      (now : ℕ) (u : Option User) (a : Account)
      → run_on (resumed locale_date payload_exp now) 2 (begin_user u a)
        ≡ (on_user locale_date payload_exp now u a, none)
  unfolding begin_user on_user resume call refresh_billing
  run_on-user now none a = refl
  run_on-user now (some user) a = refl

  run_on-cancelled :
      (now : ℕ) (r : Result Data) (a : Account)
      → run_on (resumed locale_date payload_exp now) 1 (resume locale_date r cancelling a)
        ≡ (cancelled locale_date payload_exp now r a, none)
  unfolding resume call cancelled refresh_billing
  run_on-cancelled now (ok d) a = refl
  run_on-cancelled now (throw message) a = refl

  resume-reset :
      (email : Text) (r : Result Data) (s : Site) (a : Account)
      → (resume locale_date r (resetting email) (record a { site = s })).0 ≡ (
          let (done, s') = elim r as (λ _. Result (Unit {0}) × Site) [
            | ok d ↦ (ok tt, s)
            | throw message ↦ (throw message, s)
          ] in
          reset_sent locale_date done (record a { site = s' }))
  unfolding resume
  resume-reset email (ok d) s a = refl
  resume-reset email (throw message) s a = refl

  run_on-reset :
      (now : ℕ) (to : Option Text) (a : Account)
      → run_on (resumed locale_date payload_exp now) 2 (begin_reset to a) ≡ (
        elim to as (λ _. Account) [
          | none ↦ a
          | some email ↦
              let (result, site) = send_password_reset_email email a.site in
              reset_sent locale_date result (record a { site = site })
        ],
        none,
      )
  unfolding begin_reset call send_password_reset_email resume reset_sent
  run_on-reset now none a = refl
  run_on-reset now (some email) a =
      let (result, site) = call locale_date payload_exp now (resetting email) a.site in
      ap (λ x. (x, none)) (resume-reset email result site a)

  run_on-action :
      (now : ℕ) (confirmed : Bool) (action : Action) (a : Account)
      → run_on (resumed locale_date payload_exp now) 2 (begin_action locale_date confirmed action a)
        ≡ (on_action locale_date payload_exp now confirmed action a, none)
  unfolding begin_action on_action resume call act_checkout act_cancel act_reset_password
      start_premium_checkout
  run_on-action now confirmed checkout a = refl
  run_on-action now true cancel a =
      let (result, site) = cancel_subscription payload_exp now a.site in
      run_on-cancelled now result (record a { site = site })
  run_on-action now false cancel a = refl
  run_on-action now confirmed reset_password a =
      run_on-reset now (email_of locale_date (current_user a.site)) a
  run_on-action now confirmed signout a = refl

  -- With nothing in between, each handler of the account page comes to its end within two steps, and has
  -- done then what the handler in one piece does, whatever the state of the page and whatever the server
  -- answers.
  pub run_on-handle :
      (e : Event) (a : Account)
      → run_on (resumed locale_date payload_exp (time_of e)) 2 (begin locale_date e a)
        ≡ (handle locale_date payload_exp e a, none)
  unfolding begin handle
  run_on-handle (follow_link hash) a = refl
  run_on-handle click_upgrade a = refl
  run_on-handle click_sign_out a = refl
  run_on-handle (act now confirmed action) a = run_on-action now confirmed action a
  run_on-handle (auth_changed now) a = run_on-user now (current_user a.site) a
