-- ===== src/Desktop/Settling.antt =====
-- Every waiting handler of the desktop client comes to its end: clients/desktop/src/App.tsx.
use veritas_vpn.Base.{ℕ, ◌<◌, ◌≤◌, false, some, [], ◌≡◌, arith, ap}
use veritas_vpn.Base.Net.{Answer}
use veritas_vpn.Desktop.Auth.{Reply}
use veritas_vpn.Desktop.Attempt.{Desktop}
use veritas_vpn.Desktop.Connect.{Native}
use veritas_vpn.Desktop.Async.{
  Task, refreshing, asking, making_keys, creating, bringing_up, rolling_back, tearing_down,
  dropping, resume,
}
use veritas_vpn.Base.Waiting.{task_at, without}
use veritas_vpn.Base.Settling.{
  total, rank_of, total-task_at, total-add_task, settle, settle-ends, settle-keeps,
}
use veritas_vpn.Desktop.World.{World, go_on, happen, Run, go_on_with}
use veritas_vpn.Desktop.Races.{attempts, IsMarked, happen-IsMarked, Run-attempts}

-- How many steps a waiting handler has left at most.
abbrev pub rank : Task → ℕ
rank refreshing = 6
rank (asking token) = 5
rank (making_keys token) = 4
rank (creating token keys) = 3
rank (bringing_up token peer) = 2
rank (rolling_back e) = 1
rank (tearing_down token peer_id) = 2
rank dropping = 1

resume-rank :
    (native : Native) (answer : Answer Reply) (task : Task) (d : Desktop)
    → rank_of rank (resume native answer task d).1 < rank task
unfolding resume
resume-rank native answer refreshing d = ground arith
resume-rank native answer (asking token) d = ground arith
resume-rank native answer (making_keys token) d = ground arith
resume-rank native answer (creating token keys) d = ground arith
resume-rank native answer (bringing_up token peer) d = ground arith
resume-rank native answer (rolling_back e) d = ground arith
resume-rank native answer (tearing_down token peer_id) d = ground arith
resume-rank native answer dropping d = ground arith

go_on-total :
    (native : Native) (answer : Answer Reply) (n : ℕ) (w : World) (task : Task)
    → task_at n w.tasks ≡ some task
    → total rank (go_on_with native answer (some task) n w).tasks < total rank w.tasks
unfolding go_on_with
go_on-total native answer n w task e = ground (
  arith,
  total-task_at rank n w.tasks task e,
  total-add_task rank (resume native answer task w.desktop).1 (without n w.tasks),
  resume-rank native answer task w.desktop,
)

rank-positive : (task : Task) → 1 ≤ rank task
rank-positive task = ground arith

-- What goes on next, and with what: any scheduler and any environment. A number that names no handler
-- stands for the latest one.
pub record Turn : Type 0 where
  pub number : ℕ
  pub native : Native
  pub answer : Answer Reply

module _ (turn : World → Turn) where
  abbrev pub take_turn : ℕ → World → World
  take_turn n w = happen (go_on n (turn w).native (turn w).answer) w

  -- Nothing is clicked, and the handlers that wait go on, as many times as their ranks add up to.
  abbrev pub settled : World → World
  settled w = settle (λ v. v.tasks) take_turn (λ v. (turn v).number) (total rank w.tasks) w

  take_turn-lowers :
      (n : ℕ) (w : World) (task : Task)
      → task_at n w.tasks ≡ some task
      → total rank (take_turn n w).tasks < total rank w.tasks
  unfolding happen
  take_turn-lowers n w task e = rw e (go_on-total (turn w).native (turn w).answer n w task e)

  take_turn-rests : (n : ℕ) (w : World) → w.tasks ≡ [] → (take_turn n w).tasks ≡ []
  unfolding happen go_on_with
  take_turn-rests n w e = rw (ap (task_at n) e) e

  settled-quiet : (w : World) → (settled w).tasks ≡ []
  settled-quiet w =
      settle-ends (λ v. v.tasks) take_turn (λ v. (turn v).number) rank take_turn-lowers
        take_turn-rests w rank-positive

  settled-IsMarked : (w : World) → IsMarked w → IsMarked (settled w)
  settled-IsMarked w h =
      settle-keeps (λ v. v.tasks) take_turn (λ v. (turn v).number) IsMarked (total rank w.tasks) w
        (λ n v. happen-IsMarked (go_on n (turn v).native (turn v).answer) v) h

-- After any run every handler comes to its end, whatever the commands and the server answer and
-- whichever handler goes on first: after as many steps as the ranks add up to, none waits any more and
-- the mark `connecting` is off.
pub settle_ends :
    (d : Desktop) {w : World} (turn : World → Turn)
    → d.connecting ≡ false
    → Run (record { desktop = d; tasks = [] }) w
    → ((settled turn w).tasks ≡ []) × ((settled turn w).desktop.connecting ≡ false)
settle_ends d {w} turn idle r = ground (
  arith,
  settled-quiet turn w,
  ap attempts (settled-quiet turn w),
  settled-IsMarked turn w (Run-attempts d idle r).0,
)
