-- ===== src/Desktop/Liveness.antt =====
-- Attempts to connect end, whatever else goes on: clients/desktop/src/App.tsx, lines 172-305.
use veritas_vpn.Base.{
  zero, [], ℕ, suc, ◌+◌, ◌≤◌, ◌<◌, ◌*◌, ◌≡◌, refl, Bool, true, false, Option, none, some, List,
  arith, ◌==◌, leb,
}
use veritas_vpn.Base.Settling.{total, rank_of, total-task_at}
use veritas_vpn.Base.Waiting.{task_at}
use veritas_vpn.Base.Fairness.{after, IsFair, rests}
use native.Mathlib.Nat.{le_refl}
use veritas_vpn.Base.Net.{Answer}
use veritas_vpn.Desktop.Auth.{Reply}
use veritas_vpn.Desktop.Attempt.{Desktop}
use veritas_vpn.Desktop.Connect.{Native}
use veritas_vpn.Desktop.Async.{
  Task, refreshing, asking, making_keys, creating, bringing_up, rolling_back, tearing_down,
  dropping, resume,
}
use veritas_vpn.Desktop.World.{
  World, Event, click_connect, click_disconnect, click_sign_out, status_timeout, form, go_on,
  happen, go_on_with,
}
use veritas_vpn.Desktop.Races.{weight, attempts, IsMarked, happen-IsMarked}
use veritas_vpn.Desktop.Settling.{rank}

-- How many steps the attempts to connect have left at most.
abbrev pub left_of : Task → ℕ
left_of task = weight task * rank task

abbrev pub left : List Task → ℕ
left tasks = total left_of tasks

resume-left :
    (native : Native) (answer : Answer Reply) (task : Task) (d : Desktop)
    → rank_of left_of (resume native answer task d).1 + weight task ≤ left_of task
unfolding resume
resume-left native answer refreshing d = ground arith
resume-left native answer (asking token) d = ground arith
resume-left native answer (making_keys token) d = ground arith
resume-left native answer (creating token keys) d = ground arith
resume-left native answer (bringing_up token peer) d = ground arith
resume-left native answer (rolling_back e) d = ground arith
resume-left native answer (tearing_down token peer_id) d = ground arith
resume-left native answer dropping d = ground arith

-- A promise that the attempt waits for is settled.
abbrev pub of_attempt : Option Task → Bool
of_attempt none = false
of_attempt (some task) = weight task == 1

abbrev pub settles_attempt : Event → World → Bool
settles_attempt (go_on n native answer) w = of_attempt (task_at n w.tasks)
settles_attempt e w = false

go_on-left :
    (native : Native) (answer : Answer Reply) (n : ℕ) (w : World) (t : Option Task)
    → task_at n w.tasks ≡ t
    → left (go_on_with native answer t n w).tasks ≤ left w.tasks
unfolding go_on_with
go_on-left native answer n w none e = ground arith
go_on-left native answer n w (some task) e =
    ground (arith, total-task_at left_of n w.tasks task e, resume-left native answer task w.desktop)

go_on-left_lt :
    (native : Native) (answer : Answer Reply) (n : ℕ) (w : World) (t : Option Task)
    → task_at n w.tasks ≡ t
    → of_attempt t ≡ true
    → left (go_on_with native answer t n w).tasks < left w.tasks
unfolding go_on_with
go_on-left_lt native answer n w none e h = ground arith
go_on-left_lt native answer n w (some task) e h =
    ground (arith, total-task_at left_of n w.tasks task e, resume-left native answer task w.desktop)

happen-left :
    (e : Event) (w : World) → w.desktop.connecting ≡ true → left (happen e w).tasks ≤ left w.tasks
unfolding happen
happen-left click_connect w h = ground arith
happen-left click_disconnect w h = ground arith
happen-left click_sign_out w h = ground arith
happen-left status_timeout w h = ground arith
happen-left (form e) w h = ground arith
happen-left (go_on n native answer) w h = go_on-left native answer n w (task_at n w.tasks) refl

happen-left_lt :
    (e : Event) (w : World) → settles_attempt e w ≡ true → left (happen e w).tasks < left w.tasks
unfolding happen
happen-left_lt click_connect w h = ground arith
happen-left_lt click_disconnect w h = ground arith
happen-left_lt click_sign_out w h = ground arith
happen-left_lt status_timeout w h = ground arith
happen-left_lt (form e) w h = ground arith
happen-left_lt (go_on n native answer) w h =
    go_on-left_lt native answer n w (task_at n w.tasks) refl h

abbrev pub connecting : World → Bool
connecting w = w.desktop.connecting

-- An attempt to connect waits for a promise.
abbrev pub waits : World → Bool
waits w = leb 1 (attempts w.tasks)

marked-waits : (w : World) → IsMarked w → connecting w ≡ true → waits w ≡ true
marked-waits w h on = ground arith

-- What happens at each time.
module _ (schedule : ℕ → Event) where
  abbrev pub happen_at : ℕ → World → World
  happen_at n w = happen (schedule n) w

  abbrev pub settles : ℕ → World → Bool
  settles n w = settles_attempt (schedule n) w

  after-IsMarked : (n : ℕ) (w : World) → IsMarked w → IsMarked (after happen_at n w)
  after-IsMarked zero w h = h
  after-IsMarked (suc n) w h = happen-IsMarked (schedule n) _ (after-IsMarked n w h)

  -- For every endless sequence of events, from an application that is not connecting, with nothing waiting: if
  -- at every time at which an attempt to connect waits, a promise that one waits for is settled then or later,
  -- then from every time on there comes one at which the mark `connecting` is off.
  pub connecting_ends :
      (d : Desktop)
      → d.connecting ≡ false
      → IsFair happen_at waits settles (record { desktop = d; tasks = [] })
      → (n : ℕ)
      → (m : ℕ) × (n ≤ m)
        × ((after happen_at m (record { desktop = d; tasks = [] })).desktop.connecting ≡ false)
  connecting_ends d idle fair n =
      let w : World = record { desktop = d; tasks = [] } in
      rests happen_at connecting settles w (λ v. left v.tasks)
        (λ k v on. happen-left (schedule k) v on) (λ k v on it. happen-left_lt (schedule k) v it)
        (λ k on. fair k (marked-waits (after happen_at k w) (after-IsMarked k w (ground arith)) on))
        (suc (left (after happen_at n w).tasks)) n (le_refl _)
