-- ===== src/Site/Account/Nav/InStep.antt =====
-- The path that the account page rendered last is that of the address: website/account/js/account-app.js,
-- lines 280-386.
use veritas_vpn.Base.{ℕ, ◌≡◌, ◌⊎◌, inr, Option, none, some, Text, Result, ok, throw, arith}
use veritas_vpn.Base.Waiting.{task_at}
use veritas_vpn.Api.{Data}
use veritas_vpn.Site.Account.{
  Account, route, render, fail_with, show_flash, checkout_started, reset_sent, refreshed, loaded,
  billing_loaded, act_sign_out,
}
use veritas_vpn.Site.Account.Actions.{
  Action, checkout, cancel, reset_password, signout, follow_link, click_upgrade, click_sign_out,
  act, auth_changed, start, change_hash,
}
use veritas_vpn.Site.Account.Actions as Actions
use veritas_vpn.Site.Account.Async.{
  Task, loading, checking_out, cancelling, reloading, resetting, begin_user, begin_reset,
  begin_action, begin, resume, have_cancelled, have_reset, Visit, Happening, on, renew, go_on,
  go_on_with, happen,
}

-- Nothing is shown yet, or the path that was rendered last is that of the address.
unfoldable pub IsInStep : Account → Type 0
IsInStep a = (a.content ≡ none) ⊎ (a.active_nav ≡ route a.hash)

module _ (locale_date : Text → Text) where
  render-IsInStep : (a : Account) → IsInStep (render locale_date a)
  unfolding IsInStep render
  render-IsInStep a = inr (ground arith)

  begin-IsInStep :
      (e : Actions.Event) (a : Account) → IsInStep a → IsInStep (begin locale_date e a).0
  unfolding IsInStep begin begin_action begin_user begin_reset change_hash act_sign_out render
  begin-IsInStep (follow_link hash) a h = ground arith
  begin-IsInStep click_upgrade a h = ground arith
  begin-IsInStep click_sign_out a h = h
  begin-IsInStep (act now confirmed checkout) a h = h
  begin-IsInStep (act now confirmed cancel) a h = ground arith
  begin-IsInStep (act now confirmed reset_password) a h = ground arith
  begin-IsInStep (act now confirmed signout) a h = h
  begin-IsInStep (auth_changed now) a h = ground arith

  resume-IsInStep :
      (r : Result Data) (task : Task) (a : Account)
      → IsInStep a
      → IsInStep (resume locale_date r task a).0
  unfolding IsInStep resume loaded billing_loaded checkout_started have_cancelled refreshed
      have_reset reset_sent show_flash fail_with render
  resume-IsInStep (ok d) loading a h = ground arith
  resume-IsInStep (throw message) loading a h = ground arith
  resume-IsInStep r checking_out a h = ground arith
  resume-IsInStep (ok d) cancelling a h = h
  resume-IsInStep (throw message) cancelling a h = ground arith
  resume-IsInStep (ok d) reloading a h = ground arith
  resume-IsInStep (throw message) reloading a h = ground arith
  resume-IsInStep (ok d) (resetting email) a h = ground arith
  resume-IsInStep (throw message) (resetting email) a h = ground arith

  module _ (payload_exp : Text → Option ℕ) where
    go_on-IsInStep :
        (r : Result Data) (task : Option Task) (n : ℕ) (v : Visit)
        → IsInStep v.account
        → IsInStep (go_on_with locale_date payload_exp r task n v).account
    unfolding go_on_with
    go_on-IsInStep r none n v h = h
    go_on-IsInStep r (some task) n v h = resume-IsInStep r task v.account h

    pub happen-IsInStep :
        (h : Happening) (v : Visit)
        → IsInStep v.account
        → IsInStep (happen locale_date payload_exp h v).account
    unfolding happen IsInStep
    happen-IsInStep (on e) v k = begin-IsInStep e v.account k
    happen-IsInStep (renew now) v k = k
    happen-IsInStep (go_on n r) v k = go_on-IsInStep r (task_at n v.tasks) n v k
