-- ===== src/Site/Account/Runs.antt =====
-- What the account page shows on every run: website/account/js/account-app.js.
use veritas_vpn.Base.{ℕ, inl, refl, Bool, Option, Text, text}
use veritas_vpn.Site.Session.{Site, current_user}
use veritas_vpn.Site.Session.Invariant.{IsConsistent}
use veritas_vpn.Site.Account.{Account}
use veritas_vpn.Site.Account.Actions.{
  Action, checkout, cancel, reset_password, signout, Event, follow_link, click_upgrade,
  click_sign_out, act, auth_changed, start, on_action, handle, Run, here, next,
}
use veritas_vpn.Site.Account.Fresh.{
  IsFresh, act_checkout-IsFresh, act_cancel-IsFresh, act_reset_password-IsFresh,
  act_sign_out-IsFresh, on_user-IsFresh, change_hash-IsFresh,
}

module _ (locale_date : Text → Text) (payload_exp : Text → Option ℕ) where
  on_action-IsFresh :
      (now : ℕ) (confirmed : Bool) (action : Action) (a : Account)
      → IsFresh locale_date a
      → IsFresh locale_date (on_action locale_date payload_exp now confirmed action a)
  unfolding on_action
  on_action-IsFresh now confirmed checkout a h =
      act_checkout-IsFresh locale_date payload_exp now a h
  on_action-IsFresh now confirmed cancel a h =
      act_cancel-IsFresh locale_date payload_exp now confirmed a h
  on_action-IsFresh now confirmed reset_password a h = act_reset_password-IsFresh locale_date a h
  on_action-IsFresh now confirmed signout a h = act_sign_out-IsFresh locale_date a h

  handle-IsFresh :
      (e : Event) (a : Account)
      → IsFresh locale_date a
      → IsFresh locale_date (handle locale_date payload_exp e a)
  unfolding handle
  handle-IsFresh (follow_link hash) a h = change_hash-IsFresh locale_date hash a h
  handle-IsFresh click_upgrade a h = change_hash-IsFresh locale_date (text "#/subscription") a h
  handle-IsFresh click_sign_out a h = act_sign_out-IsFresh locale_date a h
  handle-IsFresh (act now confirmed action) a h = on_action-IsFresh now confirmed action a h
  handle-IsFresh (auth_changed now) a h =
      on_user-IsFresh locale_date payload_exp now (current_user a.site) a h

  -- On every run of the account page that starts with a consistent session, the page that is shown to
  -- a signed-in user is the one that belongs to the address, to this user and to the billing status
  -- as they are then, or nothing is shown yet: no handler leaves a stale page behind.
  pub Run-IsFresh :
      (hash : Text) (s : Site) {a : Account}
      → IsConsistent s
      → Run locale_date payload_exp (start hash s) a
      → IsFresh locale_date a
  unfolding start
  Run-IsFresh hash s h here = record { consistent = h; fresh = λ user there. inl refl }
  Run-IsFresh hash s h (next {b = b} e r) = handle-IsFresh e b (Run-IsFresh hash s h r)
