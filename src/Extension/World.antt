-- ===== src/Extension/World.antt =====
-- The popup and the background worker with the handlers that wait: popup.js and background.js of
-- clients/browser-extension/js. Any of them may go on at any time, in any order, and the controls that are
-- shown can be used in between.
use veritas_vpn.Base.{
  ℕ, Bool, true, false, not, ◌&&◌, Option, none, some, List, [], ◌∷◌, if◌then◌else◌,
}
use veritas_vpn.Base.Waiting.{task_at, without, add_task}
use veritas_vpn.Extension.Popup.{Popup, set_mode, on_method_toggle}
use veritas_vpn.Extension.Safety as Safety
use veritas_vpn.Extension.Safety.{
  open_popup, click_toggle, click_sign_out, submit, click_method, installed, startup, alarm,
  click_tab, click_save, type_email, type_password, type_account_id, type_host,
}
use veritas_vpn.Extension.Async.{
  for_refresh, for_alarm, for_installed, for_startup, Task, reading, Step, begin_toggle,
  begin_sign_out, begin_submit, begin_save, resume,
}

pub record World : Type 0 where
  pub popup : Popup
  pub tasks : List Task

-- A handler up to its first `await`.
unfoldable pub begin : Safety.Event → Popup → Step
unfolding begin_toggle begin_sign_out begin_submit begin_save set_mode on_method_toggle
begin open_popup p = (p, some (reading (for_refresh false)))
begin click_toggle p = begin_toggle p
begin click_sign_out p = begin_sign_out p
begin submit p = begin_submit p
begin click_method p = (on_method_toggle p, none)
begin (click_tab m) p = (set_mode m p, none)
begin (click_save port) p = begin_save port p
begin installed p = (p, some (reading for_installed))
begin startup p = (p, some (reading for_startup))
begin alarm p = (p, some (reading for_alarm))
begin (type_email v) p = (record p { email_value = v }, none)
begin (type_password v) p = (record p { password_value = v }, none)
begin (type_account_id v) p = (record p { account_id_value = v }, none)
begin (type_host v) p = (record p { proxy_host = v }, none)

-- The controls of a view can be used while it is on show, and the button that submits while it is not
-- disabled.
abbrev pub can_happen : Safety.Event → Popup → Bool
can_happen submit p = not p.auth_hidden && not p.submit_disabled
can_happen click_method p = not p.auth_hidden
can_happen (click_tab m) p = not p.auth_hidden
can_happen (type_email v) p = not p.auth_hidden
can_happen (type_password v) p = not p.auth_hidden
can_happen (type_account_id v) p = not p.auth_hidden
can_happen click_toggle p = not p.main_hidden
can_happen click_sign_out p = not p.main_hidden
can_happen (click_save port) p = not p.main_hidden
can_happen (type_host v) p = not p.main_hidden
can_happen open_popup p = true
can_happen installed p = true
can_happen startup p = true
can_happen alarm p = true

-- A handler has come to an `await`, or to its end.
abbrev pub join : List Task → Step → World
join tasks (p, task) = record { popup = p; tasks = add_task task tasks }

-- `go_on` lets the task at a place of the list go on.
pub data Event : Type 0 where
  on : Safety.Event → Event
  go_on : ℕ → Event

unfoldable pub go_on_with : Option Task → ℕ → World → World
unfolding resume
go_on_with none n w = w
go_on_with (some task) n w = join (without n w.tasks) (resume task w.popup)

unfoldable pub happen : Event → World → World
unfolding begin go_on_with
happen (on e) w = if can_happen e w.popup then join w.tasks (begin e w.popup) else w
happen (go_on n) w = go_on_with (task_at n w.tasks) n w

unfoldable pub happen_all : List Event → World → World
unfolding happen
happen_all [] w = w
happen_all (e ∷ es) w = happen_all es (happen e w)
