-- ===== src/Site/Account/Async.antt =====
-- The handlers of website/account/js/account-app.js as they run, lines 309-386: up to each `await`, and
-- from the answer on, so that any other handler may run between two steps. An awaited call of billing.js
-- or auth.js is settled with what its `api` gives; while it runs it may renew the tokens of the session.
use veritas_vpn.Base.{
  ℕ, Bool, false, Option, none, some, List, [], ◌∷◌, Text, text, or_else, text_of, if◌then◌else◌,
  Result, ok, throw,
}
use veritas_vpn.Base.Waiting.{task_at, without, add_task}
use veritas_vpn.Api.{User, Data}
use veritas_vpn.Site.Session as Session
use veritas_vpn.Site.Session.{Site, current_user, reset_options, get_id_token}
use veritas_vpn.Site.Billing.{fetch_billing_status, cancel_subscription, subscribe, checkout_url}
use veritas_vpn.Site.Account.{
  Account, show_flash, fine, fail_with, checkout_started, billing_loaded, refreshed, loaded,
  reset_sent, email_of, act_sign_out,
}
use veritas_vpn.Site.Account.Actions.{
  Action, checkout, cancel, reset_password, signout, Event, follow_link, click_upgrade,
  click_sign_out, act, auth_changed, change_hash,
}

-- A handler that waits: for the status after a sign-in, for a checkout, for a cancellation and for the
-- status after it, for a password reset.
pub data Task : Type 0 where
  loading checking_out cancelling reloading : Task
  resetting : (email : Text) → Task

abbrev Step : Type 0
Step = Account × Option Task

-- The callback of `onAuthStateChanged`.
unfoldable pub begin_user : Option User → Account → Step
begin_user none a = (record a { href = some (text "/?signin=1") }, none)
begin_user (some user) a = (
  record a { email_shown = or_else user.email (text_of user.account_id); shell_hidden = false },
  some loading,
)

unfoldable pub begin_reset : Option Text → Account → Step
begin_reset none a = (a, none)
begin_reset (some email) a = (a, some (resetting email))

module _ (locale_date : Text → Text) where
  unfoldable pub begin_action : Bool → Action → Account → Step
  unfolding begin_reset current_user act_sign_out
  begin_action confirmed checkout a = (a, some checking_out)
  begin_action confirmed cancel a = if confirmed then (a, some cancelling) else (a, none)
  begin_action confirmed reset_password a =
      begin_reset (email_of locale_date (current_user a.site)) a
  begin_action confirmed signout a = (act_sign_out a, none)

  -- A handler up to its first `await`.
  unfoldable pub begin : Event → Account → Step
  unfolding begin_action begin_user change_hash act_sign_out current_user
  begin (follow_link hash) a = (change_hash locale_date hash a, none)
  begin click_upgrade a = (change_hash locale_date (text "#/subscription") a, none)
  begin click_sign_out a = (act_sign_out a, none)
  begin (act now confirmed action) a = begin_action confirmed action a
  begin (auth_changed now) a = begin_user (current_user a.site) a

  unfoldable pub have_cancelled : Result Data → Account → Step
  unfolding show_flash fail_with
  have_cancelled (ok d) a =
      (show_flash locale_date (text "Premium will cancel at period end.") fine a, some reloading)
  have_cancelled (throw message) a = (fail_with locale_date message a, none)

  unfoldable pub have_reset : Result Data → Account → Account
  unfolding reset_sent
  have_reset (ok d) a = reset_sent locale_date (ok tt) a
  have_reset (throw message) a = reset_sent locale_date (throw message) a

  -- What a task does when the call that it waits for is settled.
  unfoldable pub resume : Result Data → Task → Account → Step
  unfolding loaded billing_loaded checkout_started checkout_url have_cancelled refreshed have_reset
  resume result loading a = (loaded locale_date (billing_loaded result a), none)
  resume result checking_out a = (checkout_started locale_date (checkout_url result) a, none)
  resume result cancelling a = have_cancelled result a
  resume result reloading a = (refreshed locale_date (billing_loaded result a), none)
  resume result (resetting email) a = (have_reset result a, none)

-- The page with the handlers that wait.
pub record Visit : Type 0 where
  pub account : Account
  pub tasks : List Task

abbrev pub join : List Task → Step → Visit
join tasks (a, task) = record { account = a; tasks = add_task task tasks }

-- `on` is an event of the page, `renew` the renewal of the tokens by a call that runs, and `go_on`
-- settles the call of a task.
pub data Happening : Type 0 where
  on : Event → Happening
  renew : (now : ℕ) → Happening
  go_on : (n : ℕ) → Result Data → Happening

module _ (locale_date : Text → Text) (payload_exp : Text → Option ℕ) where
  unfoldable pub go_on_with : Result Data → Option Task → ℕ → Visit → Visit
  unfolding resume
  go_on_with result none n v = v
  go_on_with result (some task) n v =
      join (without n v.tasks) (resume locale_date result task v.account)

  unfoldable pub happen : Happening → Visit → Visit
  unfolding begin go_on_with get_id_token
  happen (on e) v = join v.tasks (begin locale_date e v.account)
  happen (renew now) v = record v {
    account = record account { site = (get_id_token payload_exp now account.site).1 };
  }
    where
      open v use {account}
  happen (go_on n result) v = go_on_with result (task_at n v.tasks) n v

  pub data Run (v : Visit) : Visit → Type 0 where
    here : Run v v
    next : {w : Visit} (h : Happening) → Run v w → Run v (happen h w)

  unfoldable pub happen_all : List Happening → Visit → Visit
  unfolding happen
  happen_all [] v = v
  happen_all (h ∷ hs) v = happen_all hs (happen h v)

  -- The call that a task waits for, run in one piece.
  unfoldable pub call : ℕ → Task → Site → Result Data × Site
  unfolding fetch_billing_status cancel_subscription subscribe Session.api
  call now loading s = fetch_billing_status payload_exp now s
  call now checking_out s = subscribe payload_exp now s
  call now cancelling s = cancel_subscription payload_exp now s
  call now reloading s = fetch_billing_status payload_exp now s
  call now (resetting email) s =
      Session.api (text "/api/v1/auth/reset-password") (reset_options email) s

  abbrev pub resumed : ℕ → Task → Account → Step
  resumed now task a =
      let (result, site) = call now task a.site in
      resume locale_date result task (record a { site = site })
