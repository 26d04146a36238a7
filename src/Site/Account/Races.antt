-- ===== src/Site/Account/Races.antt =====
-- What holds of the account page however its handlers are interleaved: website/account/js/account-app.js.
use veritas_vpn.Base.{
  ℕ, ◌≡◌, Bool, true, false, Option, none, some, [], ◌∷◌, text_eq, inl, refl, Text, text, Result,
  ok, throw, arith,
}
use veritas_vpn.Base.Waiting.{task_at}
use veritas_vpn.Api.{User, Data}
use veritas_vpn.Site.Session.{Site, current_user, get_id_token}
use veritas_vpn.Site.Session.Invariant.{IsConsistent}
use veritas_vpn.Site.Billing.{checkout_url}
use veritas_vpn.Site.Account.{Account, email_of, billing_loaded, fine}
use veritas_vpn.Site.Account.Actions.{
  Action, checkout, cancel, reset_password, signout, Event, follow_link, click_upgrade,
  click_sign_out, act, auth_changed, start,
}
use veritas_vpn.Site.Account.Keeps.{token-Keeps}
use veritas_vpn.Site.Account.Fresh.{
  IsFresh, unchanged-IsFresh, fail_with-IsFresh, change_hash-IsFresh, reset_sent-IsFresh,
  checkout_started-IsFresh, billing_loaded-IsConsistent, loaded-IsFresh, refreshed-IsFresh,
  act_sign_out-IsFresh,
}
use veritas_vpn.Site.Account.Async.{
  Task, loading, checking_out, cancelling, reloading, resetting, begin_user, begin_reset,
  begin_action, begin, resume, Visit, Happening, on, renew, go_on, go_on_with, happen, Run, here,
  next,
}

module _ (locale_date : Text → Text) where
  resume-IsFresh :
      (r : Result Data) (task : Task) (a : Account)
      → IsFresh locale_date a
      → IsFresh locale_date (resume locale_date r task a).0
  unfolding resume
  resume-IsFresh r loading a h =
      loaded-IsFresh locale_date (billing_loaded r a).0 (billing_loaded r a).1
        (billing_loaded-IsConsistent locale_date r a h.consistent)
  resume-IsFresh r checking_out a h = checkout_started-IsFresh locale_date (checkout_url r) a h
  resume-IsFresh (ok d) cancelling a h = record { consistent = h.consistent; fresh = h.fresh }
  resume-IsFresh (throw message) cancelling a h =
      fail_with-IsFresh locale_date message a h.consistent
  resume-IsFresh r reloading a h =
      refreshed-IsFresh locale_date (billing_loaded r a).0 (billing_loaded r a).1
        (billing_loaded-IsConsistent locale_date r a h.consistent)
  resume-IsFresh (ok d) (resetting email) a h =
      reset_sent-IsFresh locale_date (ok tt) a h.consistent
  resume-IsFresh (throw message) (resetting email) a h =
      reset_sent-IsFresh locale_date (throw message) a h.consistent

  begin_user-IsFresh :
      (u : Option User) (a : Account)
      → IsFresh locale_date a
      → IsFresh locale_date (begin_user u a).0
  unfolding begin_user
  begin_user-IsFresh none a h = record { consistent = h.consistent; fresh = h.fresh }
  begin_user-IsFresh (some user) a h = record { consistent = h.consistent; fresh = h.fresh }

  begin_reset-IsFresh :
      (to : Option Text) (a : Account)
      → IsFresh locale_date a
      → IsFresh locale_date (begin_reset to a).0
  unfolding begin_reset
  begin_reset-IsFresh none a h = h
  begin_reset-IsFresh (some email) a h = h

  begin_action-IsFresh :
      (confirmed : Bool) (action : Action) (a : Account)
      → IsFresh locale_date a
      → IsFresh locale_date (begin_action locale_date confirmed action a).0
  unfolding begin_action
  begin_action-IsFresh confirmed checkout a h = h
  begin_action-IsFresh true cancel a h = h
  begin_action-IsFresh false cancel a h = h
  begin_action-IsFresh confirmed reset_password a h =
      begin_reset-IsFresh (email_of locale_date (current_user a.site)) a h
  begin_action-IsFresh confirmed signout a h = act_sign_out-IsFresh locale_date a h

  begin-IsFresh :
      (e : Event) (a : Account)
      → IsFresh locale_date a
      → IsFresh locale_date (begin locale_date e a).0
  unfolding begin
  begin-IsFresh (follow_link hash) a h = change_hash-IsFresh locale_date hash a h
  begin-IsFresh click_upgrade a h = change_hash-IsFresh locale_date (text "#/subscription") a h
  begin-IsFresh click_sign_out a h = act_sign_out-IsFresh locale_date a h
  begin-IsFresh (act now confirmed action) a h = begin_action-IsFresh confirmed action a h
  begin-IsFresh (auth_changed now) a h = begin_user-IsFresh (current_user a.site) a h

  module _ (payload_exp : Text → Option ℕ) where
    go_on-IsFresh :
        (r : Result Data) (t : Option Task) (n : ℕ) (v : Visit)
        → IsFresh locale_date v.account
        → IsFresh locale_date (go_on_with locale_date payload_exp r t n v).account
    unfolding go_on_with
    go_on-IsFresh r none n v h = h
    go_on-IsFresh r (some task) n v h = resume-IsFresh r task v.account h

    happen-IsFresh :
        (e : Happening) (v : Visit)
        → IsFresh locale_date v.account
        → IsFresh locale_date (happen locale_date payload_exp e v).account
    unfolding happen
    happen-IsFresh (on e) v h = begin-IsFresh e v.account h
    happen-IsFresh (renew now) v h =
        unchanged-IsFresh locale_date v.account (get_id_token payload_exp now v.account.site).1 h
          (token-Keeps payload_exp now v.account.site h.consistent)
    happen-IsFresh (go_on n r) v h = go_on-IsFresh r (task_at n v.tasks) n v h

    pub Run-IsFresh :
        (hash : Text) (s : Site) {v : Visit}
        → IsConsistent s
        → Run locale_date payload_exp (record { account = start hash s; tasks = [] }) v
        → IsFresh locale_date v.account
    unfolding start
    Run-IsFresh hash s h here = record { consistent = h; fresh = λ user there. inl refl }
    Run-IsFresh hash s h (next {w = w} e r) = happen-IsFresh e w (Run-IsFresh hash s h r)

    -- A cancellation that is granted says so after the status was fetched again; where the user follows
    -- a link in the meantime the message goes to the page that was left for, and is gone when the
    -- status arrives.
    pub link_loses_message :
        (a : Account) (hash : Text) (d status : Data) (user : User)
        → current_user a.site ≡ some user
        → text_eq a.hash hash ≡ false
        → let asked =
            happen locale_date payload_exp
              (go_on 0 (ok d))
              (record { account = a; tasks = cancelling ∷ [] }) in
          let stayed = happen locale_date payload_exp (go_on 0 (ok status)) asked in
          let moved =
            happen locale_date payload_exp
              (go_on 0 (ok status))
              (happen locale_date payload_exp (on (follow_link hash)) asked) in
          (stayed.account.shown_flash
            ≡ some (record { message = text "Premium will cancel at period end."; kind = fine }))
          × (moved.account.shown_flash ≡ none)
          × (moved.account.billing_status ≡ stayed.account.billing_status)
    unfolding happen current_user
    link_loses_message a hash d status user there away = ground arith
