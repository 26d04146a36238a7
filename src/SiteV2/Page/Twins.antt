-- ===== src/SiteV2/Page/Twins.antt =====
-- The two versions of the account page, side by side.
use veritas_vpn.Base.{
  ◌≡◌, refl, sym, Bool, true, false, not, Option, none, some, Text, arith, if◌then◌else◌, text,
  text_eq,
}
use mathlib.Core.Path.{subst}
use veritas_vpn.Api.{User, Data}
use veritas_vpn.Site.Session.{current_user}
use veritas_vpn.Site.AccountView as V1View
use veritas_vpn.Site.AccountView.{Page}
use veritas_vpn.Site.Account as V1
use veritas_vpn.Site.Account.Actions as V1Actions
use veritas_vpn.Site.Account.Async as V1Async
use veritas_vpn.Site.Account.Async.{Task}
use veritas_vpn.SiteV2.Session.Versions.{at_service}
use veritas_vpn.SiteV2.Page.{
  Account, Step, page_of, render, render_for, change_hash, begin_user, begin_reset, leave,
  begin_action, begin,
}
use veritas_vpn.Site.Account.Actions.{
  Action, checkout, cancel, reset_password, signout, Event, follow_link, click_upgrade,
  click_sign_out, act, auth_changed,
}

-- The first version's page that shows `c` and has sent its requests to its service.
abbrev pub facing : Option Page → Account → V1.Account
facing c w = record w.page { content = c; site = at_service w.page.site }

module _ (locale_date : Text → Text) where
  -- Both versions show the same page of the same user and status, each with its own views, or nothing.
  unfoldable pub AreTwins : Option Page → Option Page → Type 0
  AreTwins none none = Unit {0}
  AreTwins none (some q) = ⊥
  AreTwins (some p) none = ⊥
  AreTwins (some p) (some q) =
      (path : Text) × (user : User) × (status : Option Data) × (p
        ≡ V1View.page_of locale_date path user status)
      × (q ≡ page_of locale_date path user status)

  -- The first version's page and the second's, alike but for their views and the service's address; the
  -- second one says that it starts until it shows its parts.
  pub record Twins (v : V1.Account) (w : Account) : Type 0 where
    pub same : v ≡ facing v.content w
    pub contents : AreTwins v.content w.page.content
    pub boot : w.boot_hidden ≡ not w.page.shell_hidden

  render-none :
      (a : V1.Account)
      → current_user a.site ≡ none
      → V1.render locale_date a ≡ record a { active_nav = V1.route a.hash }
  unfolding V1.render
  render-none a h = ground arith

  render-some :
      (a : V1.Account) (user : User)
      → current_user a.site ≡ some user
      → V1.render locale_date a ≡ record a {
        active_nav = V1.route a.hash;
        content = some (V1View.page_of locale_date (V1.route a.hash) user a.billing_status);
        shown_flash = a.flash;
        flash = none;
      }
  unfolding V1.render
  render-some a user h = ground arith

  render_for-Twins :
      (u : Option User) (c : Option Page) (w : Account)
      → current_user w.page.site ≡ u
      → AreTwins c w.page.content
      → w.boot_hidden ≡ not w.page.shell_hidden
      → Twins (V1.render locale_date (facing c w)) (render_for locale_date u w)
  unfolding render_for AreTwins current_user
  render_for-Twins none c w h t b =
      subst (λ v. Twins v (render_for locale_date none w)) (sym (render-none (facing c w) h))
        (record { same = refl; contents = t; boot = b })
  render_for-Twins (some user) c w h t b =
      subst (λ v. Twins v (render_for locale_date (some user) w))
        (sym (render-some (facing c w) user h))
        (record {
          same = refl;
          contents = (V1.route w.page.hash, user, w.page.billing_status, refl, refl);
          boot = b;
        })

  pub render-Twins :
      (c : Option Page) (w : Account)
      → AreTwins c w.page.content
      → w.boot_hidden ≡ not w.page.shell_hidden
      → Twins (V1.render locale_date (facing c w)) (render locale_date w)
  unfolding render current_user
  render-Twins c w t b = render_for-Twins (current_user w.page.site) c w refl t b

  pub keep :
      (c : Option Page) (w : Account)
      → AreTwins c w.page.content
      → w.boot_hidden ≡ not w.page.shell_hidden
      → Twins (facing c w) w
  keep c w t b = record { same = refl; contents = t; boot = b }

  if-Twins :
      (b : Bool) {v v' : V1.Account} {w w' : Account}
      → Twins v w
      → Twins v' w'
      → Twins (if b then v else v') (if b then w else w')
  if-Twins true t t' = t
  if-Twins false t t' = t'

  -- Two steps of a handler, to twins that wait for the same.
  abbrev pub StepTwins : V1.Account × Option Task → Step → Type 0
  StepTwins (v, task) (w, task') = Twins v w × (task ≡ task')

  module _ (c : Option Page) (w : Account) (t : AreTwins c w.page.content)
      (b : w.boot_hidden ≡ not w.page.shell_hidden) where
    abbrev v : V1.Account
    v = facing c w

    change_hash-Twins :
        (hash : Text)
        → Twins (V1Actions.change_hash locale_date hash v) (change_hash locale_date hash w)
    unfolding V1Actions.change_hash change_hash
    change_hash-Twins hash =
        if-Twins (text_eq w.page.hash hash) (keep c w t b)
          (render-Twins c (record w { page = record w.page { hash = hash } }) t b)

    begin_user-Twins :
        (u : Option User) → StepTwins (V1Async.begin_user u v) (begin_user locale_date u w)
    unfolding V1Async.begin_user begin_user
    begin_user-Twins none = (record { same = refl; contents = t; boot = b }, refl)
    begin_user-Twins (some user) = (record { same = refl; contents = t; boot = refl }, refl)

    begin_reset-Twins :
        (email : Option Text)
        → StepTwins (V1Async.begin_reset email v) (begin_reset locale_date email w)
    unfolding V1Async.begin_reset begin_reset
    begin_reset-Twins none = (keep c w t b, refl)
    begin_reset-Twins (some email) = (keep c w t b, refl)

    leave-Twins : Twins (V1.act_sign_out v) (leave locale_date w)
    unfolding V1.act_sign_out leave
    leave-Twins = record { same = refl; contents = t; boot = b }

    begin_action-Twins :
        (confirmed : Bool) (action : Action)
        → StepTwins
            (V1Async.begin_action locale_date confirmed action v)
            (begin_action locale_date confirmed action w)
    unfolding V1Async.begin_action begin_action current_user
    begin_action-Twins confirmed checkout = (keep c w t b, refl)
    begin_action-Twins true cancel = (keep c w t b, refl)
    begin_action-Twins false cancel = (keep c w t b, refl)
    begin_action-Twins confirmed reset_password =
        begin_reset-Twins (V1.email_of locale_date (current_user w.page.site))
    begin_action-Twins confirmed signout = (leave-Twins, refl)

    pub begin-Twins :
        (e : Event) → StepTwins (V1Async.begin locale_date e v) (begin locale_date e w)
    unfolding V1Async.begin begin current_user
    begin-Twins (follow_link hash) = (change_hash-Twins hash, refl)
    begin-Twins click_upgrade = (change_hash-Twins (text "#/subscription"), refl)
    begin-Twins click_sign_out = (leave-Twins, refl)
    begin-Twins (act now confirmed action) = begin_action-Twins confirmed action
    begin-Twins (auth_changed now) = begin_user-Twins (current_user w.page.site)
