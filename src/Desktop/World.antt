-- ===== src/Desktop/World.antt =====
-- The desktop application with the handlers that wait: clients/desktop/src/App.tsx. Any of them may go
-- on at any time, in any order, and the controls that are shown can be used in between.
use veritas_vpn.Base.{ℕ, not, ◌&&◌, Option, none, some, List, [], ◌∷◌, if◌then◌else◌}
use veritas_vpn.Base.Waiting.{task_at, without}
use veritas_vpn.Base.Net.{Answer}
use veritas_vpn.Desktop.Auth.{Reply}
use veritas_vpn.Desktop.Attempt.{Desktop}
use veritas_vpn.Desktop.Connect.{Native}
use veritas_vpn.Desktop.View.{shows_form}
use veritas_vpn.Desktop.View as View
use veritas_vpn.Desktop.Async.{Task, begin_connect, begin_disconnect, begin_sign_out, resume}

pub record World : Type 0 where
  pub desktop : Desktop
  pub tasks : List Task

-- A handler has come to its first `await`, or to its end.
abbrev pub join : List Task → Desktop × Option Task → World
join tasks (d, none) = record { desktop = d; tasks = tasks }
join tasks (d, some task) = record { desktop = d; tasks = task ∷ tasks }

-- `form` is what happens in the account form; `go_on` settles the promise of a task.
pub data Event : Type 0 where
  click_connect click_disconnect click_sign_out status_timeout : Event
  form : View.Event → Event
  go_on : (n : ℕ) → Native → Answer Reply → Event

unfoldable pub go_on_with : Native → Answer Reply → Option Task → ℕ → World → World
unfolding resume
go_on_with native answer none n w = w
go_on_with native answer (some task) n w =
    join (without n w.tasks) (resume native answer task w.desktop)

-- A control does something only where its view is shown and it is not disabled.
unfoldable pub happen : Event → World → World
unfolding begin_connect begin_disconnect begin_sign_out shows_form go_on_with
happen click_connect w =
    if not (shows_form w.desktop) && (not w.desktop.connected && not w.desktop.connecting)
    then join w.tasks (begin_connect w.desktop)
    else w
happen click_disconnect w =
    if not (shows_form w.desktop) && w.desktop.connected
    then join w.tasks (begin_disconnect w.desktop)
    else w
happen click_sign_out w =
    if shows_form w.desktop then w else join w.tasks (begin_sign_out w.desktop)
happen status_timeout w = record w { desktop = record desktop { status_msg = [] } }
  where
    open w use {desktop}
happen (form e) w =
    if shows_form w.desktop then record w { desktop = View.handle e w.desktop } else w
happen (go_on n native answer) w = go_on_with native answer (task_at n w.tasks) n w

pub data Run (w : World) : World → Type 0 where
  here : Run w w
  next : {w' : World} (e : Event) → Run w w' → Run w (happen e w')
