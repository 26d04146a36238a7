-- ===== src/Extension/Overlaps.antt =====
-- What the overlapping handlers of the extension leave behind: popup.js, background.js and auth.js of
-- clients/browser-extension/js.
use veritas_vpn.Base.{
  ℕ, zero, suc, ◌≡◌, Bool, true, false, not, ◌&&◌, ◌||◌, Option, some, List, [], ◌∷◌, arith,
  is_some, is_true,
}
use veritas_vpn.Base.Waiting.{task_at, without, add_task}
use veritas_vpn.Extension.Auth.{Browser}
use veritas_vpn.Extension.Popup.{Popup, connected_now, refresh, set_mode, on_method_toggle}
use veritas_vpn.Extension.Safety as Safety
use veritas_vpn.Extension.Safety.{
  open_popup, click_toggle, click_sign_out, submit, click_method, installed, startup, alarm,
  click_tab, click_save, type_email, type_password, type_account_id, type_host,
}
use veritas_vpn.Extension.Closing.{
  Effect, set_rules, clear_rules, forget, mark, set_badge, set_color, perform, connect_effects,
}
use veritas_vpn.Extension.Async.{
  for_refresh, for_toggle, for_connect, for_alarm, for_installed, for_startup, After, rest,
  show_off, refresh_next, show_on, Task, reading, performing, asking, storing, saving, begin_toggle,
  begin_sign_out, begin_submit, begin_save, resume, go_through,
}
use veritas_vpn.Extension.World.{begin}

abbrev marks_next : List Effect → Bool
marks_next (mark true ∷ es) = true
marks_next es = false

abbrev clears_next : List Effect → Bool
clears_next (clear_rules ∷ es) = true
clears_next es = false

-- Whether a task is about to set the rules, to mark the browser disconnected, and either to mark it
-- connected or to clear the rules.
abbrev pub sets : Option Task → Bool
sets (some (performing (set_rules p) es after)) = true
sets task = false

abbrev unmarks : Task → Bool
unmarks (performing (mark false) es after) = true
unmarks task = false

abbrev covers : Task → Bool
covers (performing e es after) = marks_next (e ∷ es) || clears_next (e ∷ es)
covers task = false

abbrev pub some_unmarks : List Task → Bool
some_unmarks [] = false
some_unmarks (task ∷ tasks) = unmarks task || some_unmarks tasks

abbrev pub some_covers : List Task → Bool
some_covers [] = false
some_covers (task ∷ tasks) = covers task || some_covers tasks

abbrev unmarks_next : List Effect → Bool
unmarks_next (mark false ∷ es) = true
unmarks_next es = false

-- The order of a handler's effects: rules are set right before the browser is marked, a session is
-- forgotten right before the rules are cleared, and the mark is taken away only right after that.
abbrev in_order : List Effect → Bool
in_order [] = true
in_order (set_rules p ∷ es) = marks_next es && in_order es
in_order (forget ∷ es) = clears_next es && in_order es
in_order (clear_rules ∷ es) = in_order es
in_order (e ∷ es) = not (unmarks_next es) && in_order es

abbrev is_stage : Task → Bool
is_stage (performing e es after) = in_order (e ∷ es)
is_stage task = true

abbrev pub all_stages : List Task → Bool
all_stages [] = true
all_stages (task ∷ tasks) = is_stage task && all_stages tasks

abbrev pub routed : Browser → Bool
routed b = is_some b.rules

abbrev pub marked : Browser → Bool
marked b = is_true b.storage.connected

-- Rules in force are marked or will be, or they will be cleared; while a disconnect has still to take the
-- mark away there are none.
pub record IsCovered (b : Browser) (tasks : List Task) : Type 0 where
  pub stages : all_stages tasks ≡ true
  pub clears : b.clear_rejects ≡ false
  pub covered : not (routed b) || (marked b || some_covers tasks) ≡ true
  pub unmarked : not (routed b) || not (some_unmarks tasks) ≡ true

performed-IsCovered :
    (e e' : Effect) (es : List Effect) (after after' : After) (b : Browser) (tasks : List Task)
    → sets (some (performing e (e' ∷ es) after)) && some_unmarks tasks ≡ false
    → IsCovered b (performing e (e' ∷ es) after ∷ tasks)
    → IsCovered (perform e b) (performing e' es after' ∷ tasks)
unfolding perform
performed-IsCovered (set_rules r) e' es after after' b tasks c h = ground arith
performed-IsCovered clear_rules e' es after after' b tasks c h = ground arith
performed-IsCovered forget e' es after after' b tasks c h = ground arith
performed-IsCovered (mark true) e' es after after' b tasks c h = ground arith
performed-IsCovered (mark false) e' es after after' b tasks c h = ground arith
performed-IsCovered (set_badge t) e' es after after' b tasks c h = ground arith
performed-IsCovered (set_color t) e' es after after' b tasks c h = ground arith

last-IsCovered :
    (e : Effect) (after : After) (b : Browser) (tasks : List Task)
    → IsCovered b (performing e [] after ∷ tasks)
    → IsCovered (perform e b) tasks
unfolding perform
last-IsCovered (set_rules r) after b tasks h = ground arith
last-IsCovered clear_rules after b tasks h = ground arith
last-IsCovered forget after b tasks h = ground arith
last-IsCovered (mark true) after b tasks h = ground arith
last-IsCovered (mark false) after b tasks h = ground arith
last-IsCovered (set_badge t) after b tasks h = ground arith
last-IsCovered (set_color t) after b tasks h = ground arith

finish-IsCovered :
    (after : After) (p : Popup) (tasks : List Task)
    → IsCovered p.browser tasks
    → IsCovered (go_through [] after p).0.browser (add_task (go_through [] after p).1 tasks)
unfolding go_through connected_now
finish-IsCovered rest p tasks h = h
finish-IsCovered show_off p tasks h = h
finish-IsCovered refresh_next p tasks h = ground arith
finish-IsCovered (show_on demo) p tasks h = ground arith

pub resume-IsCovered :
    (task : Task) (p : Popup) (tasks : List Task)
    → sets (some task) && some_unmarks tasks ≡ false
    → IsCovered p.browser (task ∷ tasks)
    → IsCovered (resume task p).0.browser (add_task (resume task p).1 tasks)
unfolding resume perform
resume-IsCovered (reading (for_refresh b)) p tasks c h = unfold refresh in ground arith
resume-IsCovered (reading for_toggle) p tasks c h = ground arith
resume-IsCovered (reading for_connect) p tasks c h = unfold connect_effects in ground arith
resume-IsCovered (reading for_alarm) p tasks c h = ground arith
resume-IsCovered (reading for_installed) p tasks c h = ground arith
resume-IsCovered (reading for_startup) p tasks c h = ground arith
resume-IsCovered (asking user_of shows) p tasks c h = ground arith
resume-IsCovered (storing user d shows) p tasks c h = ground arith
resume-IsCovered (saving proxy) p tasks c h = ground arith
resume-IsCovered (performing e [] after) p tasks c h =
    finish-IsCovered after (record p { browser = perform e p.browser }) tasks
      (last-IsCovered e after p.browser tasks h)
resume-IsCovered (performing e (e' ∷ es) after) p tasks c h =
    performed-IsCovered e e' es after after p.browser tasks c h

pub begin-IsCovered :
    (e : Safety.Event) (p : Popup) (tasks : List Task)
    → IsCovered p.browser tasks
    → IsCovered (begin e p).0.browser (add_task (begin e p).1 tasks)
unfolding begin
begin-IsCovered open_popup p tasks h = ground arith
begin-IsCovered click_toggle p tasks h = unfold begin_toggle in ground arith
begin-IsCovered click_sign_out p tasks h = unfold begin_sign_out in ground arith
begin-IsCovered submit p tasks h = unfold begin_submit in ground arith
begin-IsCovered click_method p tasks h = unfold on_method_toggle in ground arith
begin-IsCovered (click_tab m) p tasks h = unfold set_mode in ground arith
begin-IsCovered (click_save port) p tasks h = unfold begin_save in ground arith
begin-IsCovered installed p tasks h = ground arith
begin-IsCovered startup p tasks h = ground arith
begin-IsCovered alarm p tasks h = ground arith
begin-IsCovered (type_email v) p tasks h = h
begin-IsCovered (type_password v) p tasks h = h
begin-IsCovered (type_account_id v) p tasks h = h
begin-IsCovered (type_host v) p tasks h = h

-- A task may be taken to stand first.
pub all_stages-task_at :
    (n : ℕ) (tasks : List Task) (task : Task)
    → task_at n tasks ≡ some task
    → (all_stages tasks ≡ all_stages (task ∷ without n tasks))
      × (some_covers tasks ≡ some_covers (task ∷ without n tasks))
      × (some_unmarks tasks ≡ some_unmarks (task ∷ without n tasks))
all_stages-task_at n [] task e = ground arith
all_stages-task_at zero (t ∷ tasks) task e = ground arith
all_stages-task_at (suc n) (t ∷ tasks) task e = ground (arith, all_stages-task_at n tasks task)

pub first-IsCovered :
    (n : ℕ) (tasks : List Task) (task : Task) (b : Browser)
    → task_at n tasks ≡ some task
    → IsCovered b tasks
    → IsCovered b (task ∷ without n tasks)
first-IsCovered n tasks task b e h = ground (arith, all_stages-task_at n tasks task e)
