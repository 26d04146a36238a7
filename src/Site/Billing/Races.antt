-- ===== src/Site/Billing/Races.antt =====
-- `refreshStatus` of website/js/billing.js, lines 66-81, as it runs: up to its `await`, and from the
-- answer on. It is called anew at every `veritas-auth-changed`, also while an earlier call waits.
use veritas_vpn.Base.{
  ℕ, ◌+◌, ◌-◌, ◌==◌, ◌≡◌, true, false, none, some, if◌then◌else◌, arith, Result, ok, is_true,
  Option, Text,
}
use veritas_vpn.Api.{User, Data}
use veritas_vpn.Site.Session.{current_user}
use veritas_vpn.Site.SignIn.Handlers.{on_sign_out}
use veritas_vpn.Site.Billing.{
  Shop, show_status, set_plan_badge, set_upgrade_buttons_visible, fetch_billing_status,
  refresh_status,
}

-- A page with billing, and how many calls wait for the status.
pub record Refreshing : Type 0 where
  pub shop : Shop
  pub waiting : ℕ

-- A call up to its `await`.
unfoldable pub begin_refresh : Refreshing → Refreshing
unfolding current_user set_plan_badge set_upgrade_buttons_visible
begin_refresh r = elim (current_user shop.app.site) [
  | none ↦ record r {
    shop = record shop { plan = set_upgrade_buttons_visible true (set_plan_badge none shop.plan) };
  }
  | some user ↦ record r { waiting = r.waiting + 1 }
]
  where
    open r use {shop}

-- The rest of a call that waits, with what `fetchBillingStatus` gave.
unfoldable pub end_refresh : Result Data → Refreshing → Refreshing
unfolding show_status
end_refresh result r = if r.waiting == 0 then r else record r {
  shop = record shop { plan = show_status result shop.plan };
  waiting = r.waiting - 1;
}
  where
    open r use {shop}

-- The sign-out of the window, whose event calls `refreshStatus`.
unfoldable pub sign_out : Refreshing → Refreshing
unfolding on_sign_out begin_refresh
sign_out r = begin_refresh (record r { shop = record shop { app = on_sign_out shop.app } })
  where
    open r use {shop}

module _ (payload_exp : Text → Option ℕ) (now : ℕ) where
  -- With nothing in between, the two steps show the plan that the call in one piece shows, whoever is
  -- signed in and whatever the server answers.
  pub refresh-steps :
      (x : Shop)
      → (end_refresh
          (fetch_billing_status payload_exp now x.app.site).0
          (begin_refresh (record { shop = x; waiting = 0 }))).shop.plan
        ≡ (refresh_status payload_exp now x).plan
  unfolding end_refresh begin_refresh refresh_status
  refresh-steps x = ground arith

-- A status that arrives after a sign-out is shown all the same: nobody is signed in, and the page shows
-- the badge of the user who was, without the buttons to upgrade where that user has Premium.
pub sign_out_stale :
    (r : Refreshing) (user : User) (d : Data)
    → current_user r.shop.app.site ≡ some user
    → is_true d.is_premium ≡ true
    → let s = end_refresh (ok d) (sign_out (begin_refresh r)) in
      (current_user s.shop.app.site ≡ none)
      × (s.shop.plan.badge_hidden ≡ false)
      × (s.shop.plan.badge_is_premium ≡ true)
      × (s.shop.plan.upgrade_hidden ≡ true)
unfolding begin_refresh end_refresh sign_out
sign_out_stale r user d there premium = ground arith
