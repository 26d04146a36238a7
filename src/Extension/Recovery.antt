-- ===== src/Extension/Recovery.antt =====
-- How the overlapping handlers of the extension leave the browser: popup.js, background.js and auth.js of
-- clients/browser-extension/js.
use veritas_vpn.Base.{
  ℕ, ◌≡◌, refl, Bool, true, false, not, ◌&&◌, ◌||◌, Option, none, some, List, [], ◌∷◌, arith,
  is_some, if◌then◌else◌,
}
use veritas_vpn.Base.Waiting.{task_at, without}
use mathlib.Core.Path.{subst}
use veritas_vpn.Api.{User}
use veritas_vpn.Extension.Auth.{get_session}
use veritas_vpn.Extension.Proxy.{on_alarm, proxy_configured, proxy_config}
use veritas_vpn.Extension.Popup.{Popup, refresh}
use veritas_vpn.Extension.Safety.{click_toggle, click_sign_out}
use veritas_vpn.Extension.Closing.{mark, set_badge, connect_effects}
use veritas_vpn.Extension.Async.{show_off, Task, performing, begin_toggle, begin_sign_out, resume}
use veritas_vpn.Extension.World.{
  World, begin, can_happen, join, Event, on, go_on, go_on_with, happen, happen_all,
}
use veritas_vpn.Extension.Overlaps.{
  sets, some_unmarks, routed, marked, IsCovered, begin-IsCovered, first-IsCovered, resume-IsCovered,
  all_stages-task_at,
}

-- A handler sets the rules while a disconnect, which has cleared them, has still to take the mark away.
abbrev pub overlaps : Event → World → Bool
overlaps (on e) w = false
overlaps (go_on n) w = sets (task_at n w.tasks) && some_unmarks w.tasks

go_on-IsCovered :
    (t : Option Task) (n : ℕ) (w : World)
    → task_at n w.tasks ≡ t
    → sets t && some_unmarks w.tasks ≡ false
    → IsCovered w.popup.browser w.tasks
    → IsCovered (go_on_with t n w).popup.browser (go_on_with t n w).tasks
unfolding go_on_with
go_on-IsCovered none n w e c h = h
go_on-IsCovered (some task) n w e c h =
    resume-IsCovered task w.popup (without n w.tasks)
      (ground (arith, all_stages-task_at n w.tasks task e))
      (first-IsCovered n w.tasks task w.popup.browser e h)

happen-IsCovered :
    (e : Event) (w : World)
    → overlaps e w ≡ false
    → IsCovered w.popup.browser w.tasks
    → IsCovered (happen e w).popup.browser (happen e w).tasks
unfolding happen
happen-IsCovered (on e) w c h =
    elim (can_happen e w.popup)
      as (λ can.
        IsCovered (if can then join w.tasks (begin e w.popup) else w).popup.browser
          (if can then join w.tasks (begin e w.popup) else w).tasks) [
            | true ↦ begin-IsCovered e w.popup w.tasks h
            | false ↦ h
          ]
happen-IsCovered (go_on n) w c h = go_on-IsCovered (task_at n w.tasks) n w refl c h

-- A run on which no handler sets the rules in the middle of a disconnect.
pub data Run (w : World) : World → Type 0 where
  here : Run w w
  next : {v : World} (e : Event) → Run w v → overlaps e v ≡ false → Run w (happen e v)

Run-IsCovered :
    {w v : World} → Run w v → IsCovered w.popup.browser w.tasks → IsCovered v.popup.browser v.tasks
Run-IsCovered here h = h
Run-IsCovered (next {v = v} e r c) h = happen-IsCovered e v c (Run-IsCovered r h)

-- From a browser that is routed only where it is marked connected, with nothing waiting: however handlers
-- overlap, if none sets the rules in the middle of a disconnect, then whenever none waits any more proxy
-- rules are in force only if the browser is marked connected, so that with nobody signed in the next alarm
-- leaves it neither routed nor connected. Clearing the rules does not fail.
pub alarm_recovers :
    (p : Popup) {w : World}
    → p.browser.clear_rejects ≡ false
    → not (routed p.browser) || marked p.browser ≡ true
    → Run (record { popup = p; tasks = [] }) w
    → w.tasks ≡ []
    → (not (routed w.popup.browser) || marked w.popup.browser ≡ true)
      × (is_some w.popup.browser.storage.user || not (routed (on_alarm w.popup.browser)) ≡ true)
      × (is_some w.popup.browser.storage.user || not (marked (on_alarm w.popup.browser)) ≡ true)
unfolding on_alarm
alarm_recovers p {w = w} clears covered r quiet =
    let end : IsCovered w.popup.browser [] =
      subst (IsCovered w.popup.browser) quiet (Run-IsCovered r (ground arith)) in
    ground arith

-- A disconnect that has still to take the mark away.
abbrev pub unmarking : Task
unmarking = performing (mark false) (set_badge [] ∷ []) show_off

-- The condition on the runs is needed. Where a second disconnect has still to take the mark away when the
-- user connects again, it does so after the rules are set: with no handler waiting the browser is routed
-- through the proxy, while it is neither marked nor shown as connected and has no badge.
pub late_disconnect :
    (p : Popup) (user : User)
    → p.main_hidden ≡ false
    → p.browser.storage.user ≡ some user
    → marked p.browser ≡ false
    → proxy_configured (get_session p.browser).proxy ≡ true
    → let w =
        happen_all
          (on click_toggle
            ∷ go_on 0
            ∷ go_on 0
            ∷ go_on 0
            ∷ go_on 0
            ∷ go_on 0
            ∷ go_on 0
            ∷ go_on 0
            ∷ go_on 0
            ∷ [])
          (record { popup = p; tasks = unmarking ∷ [] }) in
      (w.tasks ≡ [])
      × (w.popup.browser.rules ≡ some (proxy_config (get_session p.browser).proxy))
      × (marked w.popup.browser ≡ false)
      × (w.popup.status.pressed ≡ false)
      × (w.popup.browser.badge_text ≡ [])
unfolding happen_all happen go_on_with begin begin_toggle resume get_session connect_effects
late_disconnect p user shown there off configured = ground arith

-- A sign-out while the rules are about to be set, which is through with clearing them before that.
abbrev pub overtaking : List Event
overtaking =
    on click_toggle
    ∷ go_on 0
    ∷ go_on 0
    ∷ on click_sign_out
    ∷ go_on 0
    ∷ go_on 0
    ∷ go_on 1
    ∷ go_on 1
    ∷ go_on 0
    ∷ go_on 0
    ∷ go_on 0
    ∷ []

-- A user who signs out while a connect is on its way may be left with the browser routed through the proxy
-- and marked connected, and with the popup's form to sign in, which has no control that disconnects; the next
-- alarm takes the rules away.
pub sign_out_overtakes :
    (p : Popup) (user : User)
    → p.main_hidden ≡ false
    → p.browser.storage.user ≡ some user
    → marked p.browser ≡ false
    → p.browser.clear_rejects ≡ false
    → proxy_configured (get_session p.browser).proxy ≡ true
    → let w = happen_all overtaking (record { popup = p; tasks = [] }) in
      (w.tasks ≡ [])
      × (w.popup.browser.storage.user ≡ none)
      × (w.popup.browser.rules ≡ some (proxy_config (get_session p.browser).proxy))
      × (marked w.popup.browser ≡ true)
      × (w.popup.main_hidden ≡ true)
      × ((on_alarm w.popup.browser).rules ≡ none)
unfolding happen_all happen go_on_with begin begin_toggle begin_sign_out resume get_session
    connect_effects on_alarm refresh
sign_out_overtakes p user shown there off clears configured = ground arith
