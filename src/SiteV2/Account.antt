-- ===== src/SiteV2/Account.antt =====
-- website/js-v2/account-app.js, lines 70-240, and billing.js, lines 48-72: the views of the account page
-- and the plan's badge, where they differ from website/account/js/account-app.js and website/js/billing.js.
use veritas_vpn.Base.{
  Bool, true, false, not, ◌&&◌, Option, none, some, [], ◌∷◌, ◌++◌, Text, text, or_text, or_else,
  is_true, if◌then◌else◌, Result, ok, throw,
}
use veritas_vpn.Api.{User, Data}
use veritas_vpn.Site.AccountView.{
  HomeView, SubscriptionView, AccountView, premium_of, cancel_of, end_of, status_of, plan_name,
  format_date,
}
use veritas_vpn.Site.Billing.{Plan}

module _ (locale_date : Text → Text) where
  unfoldable pub render_home : Option Data → HomeView
  unfolding plan_name format_date
  render_home status =
      let premium = premium_of status in
      let end = format_date locale_date (end_of status) in
      record {
        plan = plan_name status;
        meta =
            if premium
            then text "Active until "
              ++ (or_text end (text "—")
                  ++ (if cancel_of status then text " · Cancels at period end" else []))
            else text "Limited free tier · Upgrade anytime with Bitcoin";
        limits =
            if premium
            then text "Current network" ∷ text "Up to 5 devices" ∷ text "Bitcoin billing" ∷ []
            else text "Current network" ∷ text "1 device" ∷ text "Free tier" ∷ [];
        advice =
            if premium
            then text "You are on Premium. Renew before expiry to stay protected."
            else text "One plan. Paid in Bitcoin.";
        checkout =
            some (if premium then text "Renew with Bitcoin" else text "Upgrade with Bitcoin");
      }

  unfoldable pub render_subscription : Option Data → SubscriptionView
  unfolding plan_name format_date
  render_subscription status =
      let premium = premium_of status in
      record {
        plan = plan_name status;
        status = or_else (status_of status) (text "—");
        period =
            if premium
            then text " · Period ends " ++ format_date locale_date (end_of status)
            else [];
        ending = if cancel_of status then text " · Will cancel at period end" else [];
        checkout =
            some
              (if premium then text "Renew with Bitcoin" else text "Upgrade with Bitcoin — $5/mo");
        can_cancel = premium && not (cancel_of status);
      }

unfoldable pub render_account : User → AccountView
render_account user = record {
  email = some (or_else user.email (text "—"));
  account_id = or_else user.account_id (text "—");
  can_reset = true;
}

-- `refreshStatus`, with the user and what `fetchBillingStatus` gives for one.
unfoldable pub set_plan_badge : Option Bool → Plan → Plan
set_plan_badge none p = record p { badge_hidden = true }
set_plan_badge (some premium) p = record p {
  badge_hidden = false;
  badge_text = if premium then text "Premium" else text "Free";
  badge_is_premium = premium;
}

unfoldable pub show_status : Option User → Result Data → Plan → Plan
unfolding set_plan_badge
show_status none result p = set_plan_badge none p
show_status (some user) (ok d) p = set_plan_badge (some (is_true d.is_premium)) p
show_status (some user) (throw message) p = set_plan_badge (some false) p
