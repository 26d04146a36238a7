-- ===== src/SiteV2/Versions.antt =====
-- Where the account page and the badge of website/js-v2 differ from those of website/account/js and
-- website/js.
use veritas_vpn.Base.{◌≡◌, ◌↔◌, true, false, none, some, Option, Text, arith, or_null, Result}
use veritas_vpn.Api.{User, Data}
use veritas_vpn.Site.Session.{current_user}
use veritas_vpn.Site.AccountView as V1
use veritas_vpn.Site.Account.{Account, act_reset_password}
use veritas_vpn.Site.Billing as V1Billing
use veritas_vpn.Site.Billing.{Plan}
use veritas_vpn.SiteV2.Account.{render_subscription, render_account, show_status}

module _ (locale_date : Text → Text) where
  -- The two versions of the subscription page show the same plan, status and period, and the same
  -- offer to cancel. The first does not offer to pay exactly where it offers to cancel; the second
  -- always offers to pay, with the same words where both do.
  pub render_subscription_versions :
      (status : Option Data)
      → let v = V1.render_subscription locale_date status in
        let w = render_subscription locale_date status in
        (record v { checkout = w.checkout } ≡ w)
        × ((v.checkout ≡ none) ↔ (w.can_cancel ≡ true))
        × ((v.can_cancel ≡ false) ↔ (v.checkout ≡ w.checkout))
  unfolding render_subscription V1.render_subscription
  render_subscription_versions status = ground arith

  -- The second version's account page offers a password reset to a user without an email, for whom
  -- the button changes nothing and sends nothing; the first does not offer it.
  pub render_account_versions :
      (a : Account) (user : User)
      → current_user a.site ≡ some user
      → or_null user.email ≡ none
      → ((render_account user).can_reset ≡ true)
        × ((V1.render_account locale_date user).can_reset ≡ false)
        × (act_reset_password locale_date a ≡ a)
  unfolding render_account V1.render_account act_reset_password
  render_account_versions a user h nobody = ground arith

-- For a signed-in user both versions show the same badge, whatever the server answers; the second
-- leaves the upgrade buttons alone.
pub show_status_versions :
    (user : User) (result : Result Data) (p : Plan)
    → record (V1Billing.show_status result p) { upgrade_hidden = p.upgrade_hidden }
      ≡ show_status (some user) result p
unfolding show_status V1Billing.show_status
show_status_versions user result p = ground arith
