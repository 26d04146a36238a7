-- ===== src/Desktop/Races.antt =====
-- What holds of every interleaving of the desktop client's handlers: clients/desktop/src/App.tsx.
use veritas_vpn.Base.{
  ℕ, ◌+◌, ◌≤◌, Bool, true, false, Option, none, some, List, [], ◌≡◌, arith, refl,
}
use veritas_vpn.Base.Net.{Answer}
use veritas_vpn.Desktop.Auth.{Reply}
use veritas_vpn.Desktop.Attempt.{Desktop}
use veritas_vpn.Desktop.Connect.{Native}
use veritas_vpn.Desktop.Handlers.{switch_mode, switch_method, handle_auth}
use veritas_vpn.Desktop.View.{shows_form}
use veritas_vpn.Desktop.View as View
use veritas_vpn.Desktop.Async.{
  Task, refreshing, asking, making_keys, creating, bringing_up, rolling_back, tearing_down,
  dropping, resume,
}
use veritas_vpn.Base.Settling.{total, total-task_at}
use veritas_vpn.Base.Waiting.{task_at}
use veritas_vpn.Desktop.World.{
  World, Event, click_connect, click_disconnect, click_sign_out, status_timeout, form, go_on,
  happen, Run, here, next, go_on_with,
}

-- One for an attempt to connect.
abbrev pub weight : Task → ℕ
weight (tearing_down token peer_id) = 0
weight dropping = 0
weight _ = 1

abbrev pub weight_of : Option Task → ℕ
weight_of none = 0
weight_of (some task) = weight task

abbrev pub flag : Bool → ℕ
flag true = 1
flag false = 0

-- An attempt to connect ends exactly when it takes the mark `connecting` off.
resume-flag :
    (native : Native) (answer : Answer Reply) (task : Task) (d : Desktop)
    → weight task ≤ flag d.connecting
    → flag d.connecting + weight_of (resume native answer task d).1
      ≡ flag (resume native answer task d).0.connecting + weight task
unfolding resume
resume-flag native answer refreshing d h = ground arith
resume-flag native answer (asking token) d h = ground arith
resume-flag native answer (making_keys token) d h = ground arith
resume-flag native answer (creating token keys) d h = ground arith
resume-flag native answer (bringing_up token peer) d h = ground arith
resume-flag native answer (rolling_back e) d h = ground arith
resume-flag native answer (tearing_down token peer_id) d h = ground arith
resume-flag native answer dropping d h = ground arith

abbrev pub attempts : List Task → ℕ
attempts tasks = total weight tasks

-- The attempts that wait are as many as the mark says.
abbrev pub IsMarked : World → Type 0
IsMarked w = attempts w.tasks ≡ flag w.desktop.connecting

go_on-IsMarked :
    (native : Native) (answer : Answer Reply) (n : ℕ) (w : World) (t : Option Task)
    → task_at n w.tasks ≡ t
    → IsMarked w
    → IsMarked (go_on_with native answer t n w)
unfolding go_on_with
go_on-IsMarked native answer n w none e h = h
go_on-IsMarked native answer n w (some task) e h =
    ground (arith, total-task_at weight n w.tasks task e, resume-flag native answer task w.desktop)

form-connecting :
    (e : View.Event) (d : Desktop)
    → shows_form d ≡ true
    → (View.handle e d).connecting ≡ d.connecting
unfolding View.handle switch_mode switch_method handle_auth
form-connecting e d h = ground arith

pub happen-IsMarked : (e : Event) (w : World) → IsMarked w → IsMarked (happen e w)
unfolding happen
happen-IsMarked click_connect w h = ground arith
happen-IsMarked click_disconnect w h = ground arith
happen-IsMarked click_sign_out w h = ground arith
happen-IsMarked status_timeout w h = ground arith
happen-IsMarked (form e) w h = ground (arith, form-connecting e w.desktop)
happen-IsMarked (go_on n native answer) w h =
    go_on-IsMarked native answer n w (task_at n w.tasks) refl h

-- However the handlers are interleaved, from a start with nothing waiting: as many attempts to connect
-- wait as the mark `connecting` says, so there is never more than one.
pub Run-attempts :
    (d : Desktop) {w : World}
    → d.connecting ≡ false
    → Run (record { desktop = d; tasks = [] }) w
    → (attempts w.tasks ≡ flag w.desktop.connecting) × (attempts w.tasks ≤ 1)
Run-attempts d idle here = ground arith
Run-attempts d idle (next {w' = w'} e r) =
    ground (arith, happen-IsMarked e w', Run-attempts d idle r)
