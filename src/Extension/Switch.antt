-- ===== src/Extension/Switch.antt =====
-- What the extension promises its user, a switch that only a signed-in user can turn on, and that the
-- popup and the background worker implement it: clients/browser-extension/js.
use veritas_vpn.Base.{
  ◌≡◌, Bool, true, false, Option, none, some, List, [], ◌∷◌, arith, is_true, is_some, not, ◌&&◌,
  sym, refl,
}
use mathlib.Core.Path.{subst}
use veritas_vpn.Api.{User}
use veritas_vpn.Extension.Auth.{
  Browser, sign_in, sign_up, sign_in_with_account_id, register_anonymous,
}
use veritas_vpn.Extension.Proxy.{on_installed, on_startup, on_alarm}
use veritas_vpn.Extension.Popup.{
  Popup, set_mode, on_method_toggle, refresh, on_submit, on_toggle, on_sign_out, on_save_proxy,
}
use veritas_vpn.Extension.Safety.{
  IsShown, Event, open_popup, click_toggle, click_sign_out, submit, click_method, installed,
  startup, alarm, click_tab, click_save, type_email, type_password, type_account_id, type_host,
  handle, Run, here, next, Run-IsShown,
}

pub data Switch : Type 0 where
  away : Switch
  off on : User → Switch

abbrev pub flip : Switch → Switch
flip away = away
flip (off user) = on user
flip (on user) = off user

-- Somebody signs in, or nobody does.
abbrev pub enter : Option User → Switch → Switch
enter none s = s
enter (some user) away = off user
enter (some user) (off old) = off user
enter (some user) (on old) = on user

abbrev pub is_on : Switch → Bool
is_on (on user) = true
is_on s = false

-- The events that leave the switch as it is.
abbrev pub is_idle : Event → Bool
is_idle click_toggle = false
is_idle click_sign_out = false
is_idle submit = false
is_idle e = true

-- What each event may do to the switch.
pub data Move : Event → Switch → Switch → Type 0 where
  toggled : {s : Switch} → Move click_toggle s (flip s)
  left : {s : Switch} → Move click_sign_out s away
  submitted : {s : Switch} (user : Option User) → Move submit s (enter user s)
  idle : {e : Event} {s : Switch} → is_idle e ≡ true → Move e s s

-- The switch after such events, the latest first, each with a move of its own.
pub data Trace (s : Switch) : List Event → Switch → Type 0 where
  start : Trace s [] s
  then_move :
      {es : List Event} {t u : Switch} (e : Event) → Trace s es t → Move e t u → Trace s (e ∷ es) u

-- The events of a run, the latest first.
abbrev pub events : {p q : Popup} → Run p q → List Event
events here = []
events (next e r) = e ∷ events r

abbrev switch_of : Option User → Bool → Switch
switch_of none connected = away
switch_of (some user) true = on user
switch_of (some user) false = off user

-- The switch that a browser's storage stands for.
abbrev pub view : Browser → Switch
view b = switch_of b.storage.user (is_true b.storage.connected)

toggle_view : (p : Popup) → IsShown p → view (on_toggle p).browser ≡ flip (view p.browser)
unfolding on_toggle
toggle_view p h = ground arith

sign_out_view : (p : Popup) → view (on_sign_out p).browser ≡ away
unfolding on_sign_out
sign_out_view p = ground arith

submit_view :
    (p : Popup)
    → IsShown p
    → view (on_submit p).browser ≡ enter (on_submit p).browser.storage.user (view p.browser)
unfolding on_submit sign_in sign_up sign_in_with_account_id register_anonymous
submit_view p h = ground arith

idle_view :
    (e : Event) (p : Popup)
    → IsShown p
    → is_idle e ≡ true
    → view (handle e p).browser ≡ view p.browser
unfolding handle
idle_view open_popup p h i = unfold refresh in ground arith
idle_view click_toggle p h i = ground arith
idle_view click_sign_out p h i = ground arith
idle_view submit p h i = cc
idle_view click_method p h i = unfold on_method_toggle in ground arith
idle_view (click_tab m) p h i = unfold set_mode in ground arith
idle_view (click_save port) p h i = unfold on_save_proxy in ground arith
idle_view installed p h i = unfold on_installed in ground arith
idle_view startup p h i = unfold on_startup in ground arith
idle_view alarm p h i = unfold on_alarm in ground arith
idle_view (type_email v) p h i = ground arith
idle_view (type_password v) p h i = ground arith
idle_view (type_account_id v) p h i = ground arith
idle_view (type_host v) p h i = ground arith

idle-Move :
    (e : Event) (p : Popup)
    → IsShown p
    → is_idle e ≡ true
    → Move e (view p.browser) (view (handle e p).browser)
idle-Move e p h i = subst (Move e (view p.browser)) (sym (idle_view e p h i)) (idle i)

handle-Move :
    (e : Event) (p : Popup) → IsShown p → Move e (view p.browser) (view (handle e p).browser)
unfolding handle
handle-Move click_toggle p h =
    subst (Move click_toggle (view p.browser)) (sym (toggle_view p h)) toggled
handle-Move click_sign_out p h =
    subst (Move click_sign_out (view p.browser)) (sym (sign_out_view p)) left
handle-Move submit p h =
    subst (Move submit (view p.browser)) (sym (submit_view p h))
      (submitted (on_submit p).browser.storage.user)
handle-Move open_popup p h = idle-Move open_popup p h refl
handle-Move click_method p h = idle-Move click_method p h refl
handle-Move (click_tab m) p h = idle-Move (click_tab m) p h refl
handle-Move (click_save port) p h = idle-Move (click_save port) p h refl
handle-Move installed p h = idle-Move installed p h refl
handle-Move startup p h = idle-Move startup p h refl
handle-Move alarm p h = idle-Move alarm p h refl
handle-Move (type_email v) p h = idle-Move (type_email v) p h refl
handle-Move (type_password v) p h = idle-Move (type_password v) p h refl
handle-Move (type_account_id v) p h = idle-Move (type_account_id v) p h refl
handle-Move (type_host v) p h = idle-Move (type_host v) p h refl

Run-Trace :
    {p q : Popup} → IsShown p → (r : Run p q) → Trace (view p.browser) (events r) (view q.browser)
Run-Trace h here = start
Run-Trace {p} h (next {q = q} e r) = then_move e (Run-Trace h r) (handle-Move e q (Run-IsShown h r))

IsShown-is_on :
    (q : Popup)
    → IsShown q
    → (q.status.pressed ≡ is_on (view q.browser))
      × (is_some q.browser.rules && not (is_on (view q.browser)) ≡ false)
IsShown-is_on q h = ground arith

-- The popup and the background worker implement the switch, where clearing the rules never fails and each
-- handler ends before the next one begins: on every such run the stored state moves, event by event of the run,
-- as the switch does (the button flips it, signing out takes the user away, a submission lets somebody in or
-- changes nothing, no other event moves it), the button is pressed exactly while the switch is on, and traffic
-- is proxied only then.
pub Run-refines :
    {p q : Popup}
    → IsShown p
    → (r : Run p q)
    → Trace (view p.browser) (events r) (view q.browser)
      × (q.status.pressed ≡ is_on (view q.browser))
      × (is_some q.browser.rules && not (is_on (view q.browser)) ≡ false)
Run-refines {q} h r =
    let (pressed, routed) = IsShown-is_on q (Run-IsShown h r) in (Run-Trace h r, pressed, routed)
