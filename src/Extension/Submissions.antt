-- ===== src/Extension/Submissions.antt =====
-- The account form of the popup sends one submission at a time: clients/browser-extension/js/popup.js,
-- lines 124-149.
use veritas_vpn.Base.{
  ℕ, ◌+◌, ◌≡◌, refl, Bool, true, false, Option, none, some, List, [], ◌∷◌, arith, if◌then◌else◌,
}
use veritas_vpn.Base.Settling.{total, total-task_at}
use veritas_vpn.Base.Waiting.{task_at, without, add_task}
use veritas_vpn.Extension.Popup.{Popup, connected_now, show_banner, set_mode, on_method_toggle}
use veritas_vpn.Extension.Safety as Safety
use veritas_vpn.Extension.Safety.{
  open_popup, click_toggle, click_sign_out, submit, click_method, installed, startup, alarm,
  click_tab, click_save, type_email, type_password, type_account_id, type_host,
}
use veritas_vpn.Extension.Closing.{perform, connect_effects}
use veritas_vpn.Extension.Async.{
  for_refresh, for_toggle, for_connect, for_alarm, for_installed, for_startup, rest, show_off,
  refresh_next, show_on, After, Task, reading, performing, asking, storing, saving, begin_toggle,
  begin_sign_out, begin_submit, begin_save, submission_failed, resume, go_through,
}
use veritas_vpn.Extension.World.{
  World, begin, can_happen, join, Event, on, go_on, go_on_with, happen, happen_all,
}

-- How many of the tasks belong to submissions.
abbrev of_submission : Task → ℕ
of_submission (reading (for_refresh true)) = 1
of_submission (asking user_of shows) = 1
of_submission (storing user d shows) = 1
of_submission task = 0

abbrev pub submissions : List Task → ℕ
submissions tasks = total of_submission tasks

abbrev pub disabled_count : Popup → ℕ
disabled_count p = if p.submit_disabled then 1 else 0

finish-submissions :
    (after : After) (p : Popup) (tasks : List Task)
    → (submissions (add_task (go_through [] after p).1 tasks) ≡ submissions tasks)
      × ((go_through [] after p).0.submit_disabled ≡ p.submit_disabled)
unfolding go_through connected_now show_banner
finish-submissions rest p tasks = (refl, refl)
finish-submissions show_off p tasks = (refl, refl)
finish-submissions refresh_next p tasks = ground arith
finish-submissions (show_on true) p tasks = ground arith
finish-submissions (show_on false) p tasks = (refl, refl)

resume-submissions :
    (task : Task) (p : Popup) (tasks : List Task)
    → of_submission task + submissions tasks ≡ disabled_count p
    → submissions (add_task (resume task p).1 tasks) ≡ disabled_count (resume task p).0
unfolding resume
resume-submissions (reading (for_refresh true)) p tasks h = ground arith
resume-submissions (reading (for_refresh false)) p tasks h = ground arith
resume-submissions (reading for_toggle) p tasks h = ground arith
resume-submissions (reading for_connect) p tasks h =
    unfold connect_effects connected_now show_banner in ground arith
resume-submissions (reading for_alarm) p tasks h = ground arith
resume-submissions (reading for_installed) p tasks h = ground arith
resume-submissions (reading for_startup) p tasks h = ground arith
resume-submissions (asking user_of shows) p tasks h =
    unfold submission_failed show_banner in ground arith
resume-submissions (storing user d shows) p tasks h = ground arith
resume-submissions (saving proxy) p tasks h = unfold show_banner in ground arith
resume-submissions (performing e [] after) p tasks h =
    ground (arith, finish-submissions after (record p { browser = perform e p.browser }) tasks)
resume-submissions (performing e (e' ∷ es) after) p tasks h = ground arith

begin-submissions :
    (e : Safety.Event) (p : Popup) (tasks : List Task)
    → can_happen e p ≡ true
    → submissions tasks ≡ disabled_count p
    → submissions (add_task (begin e p).1 tasks) ≡ disabled_count (begin e p).0
unfolding begin
begin-submissions open_popup p tasks c h = ground arith
begin-submissions click_toggle p tasks c h = unfold begin_toggle show_banner in ground arith
begin-submissions click_sign_out p tasks c h = unfold begin_sign_out in ground arith
begin-submissions submit p tasks c h =
    unfold begin_submit submission_failed show_banner in ground arith
begin-submissions click_method p tasks c h = unfold on_method_toggle in ground arith
begin-submissions (click_tab m) p tasks c h = unfold set_mode in ground arith
begin-submissions (click_save port) p tasks c h = unfold begin_save in ground arith
begin-submissions installed p tasks c h = ground arith
begin-submissions startup p tasks c h = ground arith
begin-submissions alarm p tasks c h = ground arith
begin-submissions (type_email v) p tasks c h = h
begin-submissions (type_password v) p tasks c h = h
begin-submissions (type_account_id v) p tasks c h = h
begin-submissions (type_host v) p tasks c h = h

go_on-submissions :
    (t : Option Task) (n : ℕ) (w : World)
    → task_at n w.tasks ≡ t
    → submissions w.tasks ≡ disabled_count w.popup
    → submissions (go_on_with t n w).tasks ≡ disabled_count (go_on_with t n w).popup
unfolding go_on_with
go_on-submissions none n w e h = h
go_on-submissions (some task) n w e h =
    resume-submissions task w.popup (without n w.tasks)
      (omega (arith, total-task_at of_submission n w.tasks task e, h))

on-submissions :
    (e : Safety.Event) (w : World) (c : Bool)
    → can_happen e w.popup ≡ c
    → submissions w.tasks ≡ disabled_count w.popup
    → submissions (if c then join w.tasks (begin e w.popup) else w).tasks
      ≡ disabled_count (if c then join w.tasks (begin e w.popup) else w).popup
on-submissions e w true c h = begin-submissions e w.popup w.tasks c h
on-submissions e w false c h = h

pub happen-submissions :
    (e : Event) (w : World)
    → submissions w.tasks ≡ disabled_count w.popup
    → submissions (happen e w).tasks ≡ disabled_count (happen e w).popup
unfolding happen
happen-submissions (on e) w h = on-submissions e w (can_happen e w.popup) refl h
happen-submissions (go_on n) w h = go_on-submissions (task_at n w.tasks) n w refl h

-- However the handlers of the popup overlap, from a start where it is so: as many submissions of the account
-- form wait as its button is disabled, one or none.
pub happen_all-submissions :
    (es : List Event) (w : World)
    → submissions w.tasks ≡ disabled_count w.popup
    → submissions (happen_all es w).tasks ≡ disabled_count (happen_all es w).popup
unfolding happen_all
happen_all-submissions [] w h = h
happen_all-submissions (e ∷ es) w h =
    happen_all-submissions es (happen e w) (happen-submissions e w h)
