-- ===== src/SiteV2/Page.antt =====
-- website/js-v2/account-app.js: the account page of the second version, its handlers from one `await` to
-- the next, as Site/Account/Async has those of the first. What waits is a `Task` of the first version, and
-- any result of its call may settle it.
pub mod Visits
pub mod Twins
pub mod Lockstep
mod Tests
use veritas_vpn.Base.{
  ℕ, Bool, true, false, not, Option, none, some, List, [], ◌∷◌, ◌++◌, Text, text, or_text, or_else,
  text_of, text_eq, if◌then◌else◌, Result, ok, throw,
}
use veritas_vpn.Base.Waiting.{task_at, without, add_task}
use veritas_vpn.Api.{User, Data, empty_data}
use veritas_vpn.Site.Session.{Site}
use veritas_vpn.SiteV2.Store.{current_user, sign_out_handler}
use veritas_vpn.Site.AccountView.{Page, home, subscription, downloads, account, security}
use veritas_vpn.Site.Billing.{checkout_url}
use veritas_vpn.Site.Account as V1
use veritas_vpn.Site.Account.{Kind, fine, error, show_flash, route, billing_loaded, email_of}
use veritas_vpn.Site.Account.Actions as V1Actions
use veritas_vpn.Site.Account.Actions.{
  Action, checkout, cancel, reset_password, signout, Event, follow_link, click_upgrade,
  click_sign_out, act, auth_changed,
}
use veritas_vpn.Site.Account.Async as V1Async
use veritas_vpn.Site.Account.Async.{
  Task, loading, checking_out, cancelling, reloading, resetting, on, renew, go_on,
}
use veritas_vpn.SiteV2.Account.{render_home, render_subscription, render_account}

-- `page` has what the first version's page has as well.
pub record Account : Type 0 where
  pub page : V1.Account
  pub boot_hidden : Bool
  pub sidebar_open : Bool

-- The page before the first event.
unfoldable pub start : Text → Site → Account
unfolding V1Actions.start
start hash s = record { page = V1Actions.start hash s; boot_hidden = false; sidebar_open = false }

abbrev pub Step : Type 0
Step = Account × Option Task

module _ (locale_date : Text → Text) where
  -- The `switch` of `render`; any other path shows the home page.
  unfoldable pub page_of : Text → User → Option Data → Page
  unfolding render_home render_subscription render_account text_eq
  page_of path user status =
      if text_eq path (text "/subscription")
      then subscription (render_subscription locale_date status)
      else if text_eq path (text "/downloads")
      then downloads
      else if text_eq path (text "/account")
      then account (render_account user)
      else if text_eq path (text "/security")
      then security
      else home (render_home locale_date status)

  render_for : Option User → Account → Account
  unfolding route page_of
  render_for none a = record a { page = record page { active_nav = route page.hash } }
    where
      open a use {page}
  render_for (some user) a = record a {
    page = record page {
      active_nav = route page.hash;
      content = some (page_of (route page.hash) user page.billing_status);
      shown_flash = page.flash;
      flash = none;
    };
  }
    where
      open a use {page}

  unfoldable pub render : Account → Account
  unfolding render_for current_user
  render a = render_for (current_user a.page.site) a

  -- The message that is shown with the next rendering.
  tell : Text → Kind → Account → Account
  unfolding show_flash
  tell message kind a = record a { page = show_flash locale_date message kind a.page }

  unfoldable pub fail_with : Text → Account → Account
  unfolding tell render
  fail_with message a = render (tell (or_text message (text "Something went wrong")) error a)

  checkout_started : Result Text → Account → Account
  unfolding fail_with
  checkout_started (ok url) a = record a {
    page = record page { opened = page.opened ++ (url ∷ []) };
  }
    where
      open a use {page}
  checkout_started (throw message) a = fail_with message a

  -- `refreshBilling` from its answer on, and the `render` after it.
  refreshed : Result Data → Account → Account
  unfolding billing_loaded fail_with render
  refreshed (ok d) a = render (record a { page = (billing_loaded (ok d) a.page).1 })
  refreshed (throw message) a = fail_with message a

  loaded : Result Data → Account → Account
  unfolding billing_loaded render tell
  loaded (ok d) a = render (record a { page = (billing_loaded (ok d) a.page).1 })
  loaded (throw message) a =
      let told = tell (or_text message (text "Could not load subscription status")) error a in
      let unknown = record empty_data { is_premium = some false; status = some (text "unknown") } in
      render (record told { page = record told.page { billing_status = some unknown } })

  begin_user : Option User → Account → Step
  begin_user none a = (record a { page = record page { href = some (text "/?signin=1") } }, none)
    where
      open a use {page}
  begin_user (some user) a = (
    record a {
      page = record page {
        email_shown = or_else user.email (text_of user.account_id);
        shell_hidden = false;
      };
      boot_hidden = true;
    },
    some loading,
  )
    where
      open a use {page}

  begin_reset : Option Text → Account → Step
  begin_reset none a = (a, none)
  begin_reset (some email) a = (a, some (resetting email))

  leave : Account → Account
  unfolding sign_out_handler
  leave a = record a {
    page = record page { site = sign_out_handler page.site; href = some (text "/") };
  }
    where
      open a use {page}

  begin_action : Bool → Action → Account → Step
  unfolding begin_reset current_user leave
  begin_action confirmed checkout a = (a, some checking_out)
  begin_action confirmed cancel a = if confirmed then (a, some cancelling) else (a, none)
  begin_action confirmed reset_password a =
      begin_reset (email_of locale_date (current_user a.page.site)) a
  begin_action confirmed signout a = (leave a, none)

  -- The event `hashchange` is fired where the hash changes.
  change_hash : Text → Account → Account
  unfolding render text_eq
  change_hash hash a =
      if text_eq page.hash hash then a else render (record a { page = record page { hash = hash } })
    where
      open a use {page}

  -- A handler up to its first `await`.
  unfoldable pub begin : Event → Account → Step
  unfolding begin_action begin_user change_hash leave current_user
  begin (follow_link hash) a = (change_hash hash a, none)
  begin click_upgrade a = (change_hash (text "#/subscription") a, none)
  begin click_sign_out a = (leave a, none)
  begin (act now confirmed action) a = begin_action confirmed action a
  begin (auth_changed now) a = begin_user (current_user a.page.site) a

  have_cancelled : Result Data → Account → Step
  unfolding tell fail_with
  have_cancelled (ok d) a =
      (tell (text "Premium will cancel at period end.") fine a, some reloading)
  have_cancelled (throw message) a = (fail_with message a, none)

  have_reset : Result Data → Account → Account
  unfolding tell render fail_with
  have_reset (ok d) a = render (tell (text "Password reset email sent.") fine a)
  have_reset (throw message) a = fail_with message a

  -- What a task does when the call that it waits for is settled.
  unfoldable pub resume : Result Data → Task → Account → Step
  unfolding loaded checkout_started checkout_url have_cancelled refreshed have_reset
  resume result loading a = (loaded result a, none)
  resume result checking_out a = (checkout_started (checkout_url result) a, none)
  resume result cancelling a = have_cancelled result a
  resume result reloading a = (refreshed result a, none)
  resume result (resetting email) a = (have_reset result a, none)
