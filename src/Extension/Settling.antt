-- ===== src/Extension/Settling.antt =====
-- Every waiting handler of the extension comes to its end: popup.js and background.js of
-- clients/browser-extension/js.
use veritas_vpn.Base.{ℕ, ◌+◌, ◌<◌, ◌≤◌, false, some, List, [], ◌≡◌, ap, arith, length}
use veritas_vpn.Base.Waiting.{task_at, without}
use veritas_vpn.Base.Settling.{
  total, rank_of, total-task_at, total-add_task, settle, settle-ends, settle-keeps,
}
use veritas_vpn.Extension.Popup.{Popup, connected_now}
use veritas_vpn.Extension.Closing.{perform, connect_effects, Effect}
use veritas_vpn.Extension.Async.{
  for_refresh, for_toggle, for_connect, for_alarm, for_installed, for_startup, rest, show_off,
  refresh_next, show_on, After, Task, reading, performing, asking, storing, saving, resume,
  go_through,
}
use veritas_vpn.Extension.World.{World, Event, go_on, go_on_with, happen, happen_all}
use veritas_vpn.Extension.Submissions.{
  submissions, disabled_count, happen-submissions, happen_all-submissions,
}

-- How many steps a waiting handler has left at most.
abbrev pub rank : Task → ℕ
rank (reading (for_refresh submission)) = 1
rank (reading for_toggle) = 6
rank (reading for_connect) = 5
rank (reading for_alarm) = 4
rank (reading for_installed) = 3
rank (reading for_startup) = 2
rank (performing e es refresh_next) = length es + 2
rank (performing e es rest) = length es + 1
rank (performing e es show_off) = length es + 1
rank (performing e es (show_on demo)) = length es + 1
rank (asking user_of shows) = 3
rank (storing user d shows) = 2
rank (saving proxy) = 1

rank-positive : (task : Task) → 1 ≤ rank task
rank-positive task = ground arith

go_through-rank :
    (e : Effect) (es : List Effect) (after : After) (p q : Popup)
    → rank_of rank (go_through es after p).1 < rank (performing e es after)
unfolding go_through connected_now
go_through-rank e es after p q = ground arith

resume-rank : (task : Task) (p : Popup) → rank_of rank (resume task p).1 < rank task
unfolding resume
resume-rank (reading (for_refresh submission)) p = ground arith
resume-rank (reading for_toggle) p = ground arith
resume-rank (reading for_connect) p = unfold connect_effects connected_now in ground arith
resume-rank (reading for_alarm) p = ground arith
resume-rank (reading for_installed) p = ground arith
resume-rank (reading for_startup) p = ground arith
resume-rank (performing e es after) p =
    go_through-rank e es after (record p { browser = perform e p.browser }) p
resume-rank (asking user_of shows) p = ground arith
resume-rank (storing user d shows) p = ground arith
resume-rank (saving proxy) p = ground arith

go_on-total :
    (n : ℕ) (w : World) (task : Task)
    → task_at n w.tasks ≡ some task
    → total rank (go_on_with (some task) n w).tasks < total rank w.tasks
unfolding go_on_with
go_on-total n w task e = ground (
  arith,
  total-task_at rank n w.tasks task e,
  total-add_task rank (resume task w.popup).1 (without n w.tasks),
  resume-rank task w.popup,
)

happen-lowers :
    (n : ℕ) (w : World) (task : Task)
    → task_at n w.tasks ≡ some task
    → total rank (happen (go_on n) w).tasks < total rank w.tasks
unfolding happen go_on_with
happen-lowers n w task e = rw e (go_on-total n w task e)

happen-rests : (n : ℕ) (w : World) → w.tasks ≡ [] → (happen (go_on n) w).tasks ≡ []
unfolding happen go_on_with
happen-rests n w e = rw (ap (task_at n) e) e

-- The handlers of the extension go on, in the order that a scheduler names.
abbrev pub settled : (World → ℕ) → World → World
settled who w = settle (λ v. v.tasks) (λ n. happen (go_on n)) who (total rank w.tasks) w

settled-submissions :
    (who : World → ℕ) (w : World)
    → submissions w.tasks ≡ disabled_count w.popup
    → submissions (settled who w).tasks ≡ disabled_count (settled who w).popup
settled-submissions who w h =
    settle-keeps (λ v. v.tasks) (λ n. happen (go_on n)) who
      (λ v. submissions v.tasks ≡ disabled_count v.popup) (total rank w.tasks) w
      (λ n. happen-submissions (go_on n)) h

enabled_at_rest :
    (v : World)
    → v.tasks ≡ []
    → submissions v.tasks ≡ disabled_count v.popup
    → v.popup.submit_disabled ≡ false
enabled_at_rest v quiet h = ground (arith, ap submissions quiet)

-- However the handlers have overlapped, from a popup whose button is enabled with nothing waiting: once nothing
-- new begins, all of them come to their ends, whichever goes on first and whatever the server answers, within
-- as many steps as the ranks add up to; the button of the form is enabled then.
pub settled_ends :
    (es : List Event) (p : Popup) (who : World → ℕ)
    → p.submit_disabled ≡ false
    → let v = settled who (happen_all es (record { popup = p; tasks = [] })) in
      (v.tasks ≡ []) × (v.popup.submit_disabled ≡ false)
settled_ends es p who enabled =
    let w = happen_all es (record { popup = p; tasks = [] }) in
    let quiet : (settled who w).tasks ≡ [] =
      settle-ends (λ v. v.tasks) (λ n. happen (go_on n)) who rank happen-lowers happen-rests w
        rank-positive in
    (
      quiet,
      enabled_at_rest (settled who w) quiet (
          settled-submissions who w
            (happen_all-submissions es (record { popup = p; tasks = [] }) (ground arith))),
    )
