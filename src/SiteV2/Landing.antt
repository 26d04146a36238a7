-- ===== src/SiteV2/Landing.antt =====
-- website/js-v2/main.js, and lines 60-97 of billing.js there: the landing page of the second version, which starts the sign-in window and billing for every visitor. Its network map is the
-- first version's.
pub mod Versions
use veritas_vpn.Base.{
  ℕ, Bool, true, false, not, Option, none, some, List, [], ◌∷◌, ◌++◌, map, Text, text, or_text, ltb,
  if◌then◌else◌, Result, ok, throw,
}
use veritas_vpn.SiteV2.Store.{current_user}
use veritas_vpn.Site.NetworkMap.{Mount}
use veritas_vpn.Site.Billing.{Plan, Button}
use veritas_vpn.SiteV2.Billing.{fetch_billing_status, start_premium_checkout}
use veritas_vpn.Site.Landing.{click_question}
use veritas_vpn.Site.Landing.Page.{
  Bars, crossed, parallel, Reveal, mount_as, start_reveal, on_entries,
}
use veritas_vpn.SiteV2.Window.{App, has_token}
use veritas_vpn.SiteV2.Handlers.{on_open}
use veritas_vpn.SiteV2.Modes.{Mode, signin}
use veritas_vpn.SiteV2.Events.{init_auth_ui}
use veritas_vpn.SiteV2.Account.{set_plan_badge, show_status}

-- The window, the plan's badge and a button that leads to a checkout; `opened` are the addresses opened in
-- new windows, `alerts` the messages.
pub record Shop : Type 0 where
  pub app : App
  pub plan : Plan
  pub button : Button
  pub opened : List Text
  pub alerts : List Text

-- The parts of the page besides the window and the badge.
pub record Chrome : Type 0 where
  pub hero_map : Option Mount
  pub panel_map : Option Mount
  pub scrolled : Bool
  pub menu_active : Bool
  pub bars : Bars
  pub questions : List Bool
  pub reveals : List Reveal

pub record Landing : Type 0 where
  pub shop : Shop
  pub chrome : Chrome

unfoldable pub refresh_status : (Text → Option ℕ) → ℕ → Shop → Shop
unfolding current_user fetch_billing_status show_status set_plan_badge
refresh_status payload_exp now x = elim (current_user app.site) [
  | none ↦ record x { plan = set_plan_badge none plan }
  | some user ↦
      let (result, site) = fetch_billing_status payload_exp now app.site in
      record x { app = record app { site = site }; plan = show_status (some user) result plan }
]
  where
    open x use {app, plan}

-- `requireAuthOrOpenModal`: whether there is a token; if not, the window opens.
unfoldable pub require_auth_or_open_modal : Mode → App → Bool × App
unfolding on_open
require_auth_or_open_modal preferred a =
    if has_token a then (true, a) else (false, on_open (some preferred) a)

checked_out : Result Text → Text → Shop → Shop
checked_out (ok url) original x = record x {
  opened = x.opened ++ (url ∷ []);
  button = record { disabled = true; label = text "Starting checkout…" };
}
checked_out (throw message) original x = record x {
  alerts = x.alerts ++ (or_text message (text "Checkout failed") ∷ []);
  button = record { disabled = false; label = original };
}

-- The click on a button `data-billing-checkout`.
unfoldable pub on_checkout : (Text → Option ℕ) → ℕ → Shop → Shop
unfolding require_auth_or_open_modal start_premium_checkout checked_out
on_checkout payload_exp now x =
    let (allowed, a) = require_auth_or_open_modal signin x.app in
    let (result, site) = start_premium_checkout payload_exp now a.site in
    if allowed
    then checked_out result x.button.label (record x { app = record a { site = site } })
    else record x { app = a }

-- `initAuthUI` and `initBillingUI`. (The window's first `veritas-auth-changed` is dispatched before
-- billing listens to it.)
unfoldable pub start : (Text → Option ℕ) → ℕ → Bool → Bool → Shop → Shop
unfolding init_auth_ui refresh_status
start payload_exp now asks_signin asks_signup x =
    refresh_status payload_exp now (record x { app = init_auth_ui asks_signin asks_signup x.app })

unfoldable pub prepare : Bool → Chrome → Chrome
unfolding mount_as start_reveal
prepare reduce_motion c = record c {
  hero_map = mount_as (text "hero") c.hero_map;
  panel_map = mount_as (text "panel") c.panel_map;
  reveals = map (start_reveal reduce_motion) c.reveals;
}

-- The listener of `DOMContentLoaded`.
unfoldable pub load : (Text → Option ℕ) → ℕ → Bool → Bool → Bool → Landing → Landing
unfolding start prepare
load payload_exp now asks_signin asks_signup reduce_motion l = record {
  shop = start payload_exp now asks_signin asks_signup l.shop;
  chrome = prepare reduce_motion l.chrome;
}

pub data Event : Type 0 where
  scroll : ℕ → Event
  click_toggle click_link : Event
  click_question_at : ℕ → Event
  intersections : List (ℕ × Bool) → Event

unfoldable pub handle : Event → Chrome → Chrome
unfolding click_question on_entries
handle (scroll y) c = record c { scrolled = ltb 10 y }
handle click_toggle c = record c {
  menu_active = not c.menu_active;
  bars = if not c.menu_active then crossed else parallel;
}
handle click_link c = record c { menu_active = false; bars = parallel }
handle (click_question_at i) c = record c { questions = click_question i c.questions }
handle (intersections entries) c = record c { reveals = on_entries entries c.reveals }
