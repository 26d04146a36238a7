-- ===== src/Site/AccountView.antt =====
-- website/account/js/account-app.js, lines 36-247: the views of the account page. The HTML is kept by
-- its parts that vary.
use veritas_vpn.Base.{
  Bool, false, not, ◌&&◌, ◌||◌, Option, none, some, List, [], ◌∷◌, ◌++◌, Text, text, text_eq,
  is_truthy, or_text, or_else, or_null, is_true, if◌then◌else◌,
}
use veritas_vpn.Api.{User, Data}

-- `renderHome`: the plan, the line under it, and the checkout button, if there is one.
pub record HomeView : Type 0 where
  pub plan : Text
  pub meta : Text
  pub limits : List Text
  pub advice : Text
  pub checkout : Option Text

pub record SubscriptionView : Type 0 where
  pub plan : Text
  pub status : Text
  pub period : Text
  pub ending : Text
  pub checkout : Option Text
  pub can_cancel : Bool

pub record AccountView : Type 0 where
  pub email : Option Text
  pub account_id : Text
  pub can_reset : Bool

pub data Page : Type 0 where
  home : HomeView → Page
  subscription : SubscriptionView → Page
  downloads : Page
  account : AccountView → Page
  security : Page

abbrev pub premium_of : Option Data → Bool
premium_of none = false
premium_of (some d) = is_true d.is_premium

abbrev pub cancel_of : Option Data → Bool
cancel_of none = false
cancel_of (some d) = is_true d.cancel_at_period_end

abbrev pub end_of : Option Data → Option Text
end_of none = none
end_of (some d) = or_null d.current_period_end

abbrev pub status_of : Option Data → Option Text
status_of none = none
status_of (some d) = d.status

unfoldable pub plan_name : Option Data → Text
plan_name status = if premium_of status then text "Veritas Premium" else text "Veritas Free"

-- `locale_date` is `new Date(iso).toLocaleDateString(…)`.
module _ (locale_date : Text → Text) where
  unfoldable pub format_date : Option Text → Text
  format_date none = []
  format_date (some iso) = if is_truthy iso then locale_date iso else []

  unfoldable pub render_home : Option Data → HomeView
  unfolding plan_name format_date
  render_home status =
      let premium = premium_of status in
      let end = format_date (end_of status) in
      record {
        plan = plan_name status;
        meta =
            if premium
            then text "Active until "
              ++ (or_text end (text "—")
                  ++ (if cancel_of status then text " · Cancels at period end" else []))
            else text "Limited free tier · Upgrade anytime with Bitcoin";
        limits =
            if premium
            then text "Current network" ∷ text "Up to 5 devices" ∷ text "Bitcoin billing" ∷ []
            else text "Current network" ∷ text "1 device" ∷ text "Free tier" ∷ [];
        advice =
            if premium
            then text "You are on Premium. Renew before expiry to stay protected."
            else text "One plan. Paid in Bitcoin.";
        checkout =
            if not premium || cancel_of status
            then some (if premium then text "Renew with Bitcoin" else text "Upgrade with Bitcoin")
            else none;
      }

  unfoldable pub render_subscription : Option Data → SubscriptionView
  unfolding plan_name format_date
  render_subscription status =
      let premium = premium_of status in
      record {
        plan = plan_name status;
        status = or_else (status_of status) (text "—");
        period = if premium then text " · Period ends " ++ format_date (end_of status) else [];
        ending = if cancel_of status then text " · Will cancel at period end" else [];
        checkout =
            if not premium || cancel_of status
            then some
                (if premium then text "Renew with Bitcoin" else text "Upgrade with Bitcoin — $5/mo")
            else none;
        can_cancel = premium && not (cancel_of status);
      }

  unfoldable pub render_account : User → AccountView
  render_account user = record {
    email = or_null user.email;
    account_id = or_else user.account_id (text "—");
    can_reset = is_truthy (or_else user.email []);
  }

  -- The `switch` of `render`; any other path shows the home page.
  unfoldable pub page_of : Text → User → Option Data → Page
  unfolding render_home render_subscription render_account text_eq
  page_of path user status =
      if text_eq path (text "/subscription")
      then subscription (render_subscription status)
      else if text_eq path (text "/downloads")
      then downloads
      else if text_eq path (text "/account")
      then account (render_account user)
      else if text_eq path (text "/security")
      then security
      else home (render_home status)
