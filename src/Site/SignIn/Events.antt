-- ===== src/Site/SignIn/Events.antt =====
-- The sign-in window as a state machine: every handler, the arrival of answers and the timer, each
-- where the page lets it happen.
use veritas_vpn.Base.{ℕ, ◌≡◌, Bool, true, false, not, ◌&&◌, Option, none, some, Text, is_some, ltb}
use veritas_vpn.Base.Waiting.{task_at}
use veritas_vpn.Site.Modes.{Mode, signin, signup}
use veritas_vpn.Site.SignIn.{App}
use veritas_vpn.Site.SignIn.Handlers.{
  Gate, gate, on_open, on_gate, on_dashboard_link, on_close, on_escape, on_tab, on_switch_hint,
  on_anon_signup, on_anon_signin, on_submit, on_forgot_submit, on_forgot_back, on_reset,
  on_user_menu, on_outside_click, on_sign_out,
}
use veritas_vpn.Site.SignIn.Settle.{settle, on_closing}

pub data Event : Type 0 where
  click_open : Option Mode → Event
  click_gate : Option Gate → Text → Event
  click_dashboard : Text → Event
  click_close escape click_signin_tab click_signup_tab click_hint click_anon_signup : Event
  click_anon_signin submit click_forgot_submit click_forgot_back click_reset : Event
  click_menu click_outside click_sign_out timer : Event
  answer : ℕ → Event
  type_email type_password type_forgot : Text → Event

-- `form.submit`, `click` and so on are events of elements that can be reached: those of the window
-- only while it is open and they are not hidden.
in_window : Bool → App → Bool
in_window hidden a = a.form.is_open && not hidden

abbrev is_shown : Option Bool → Bool
is_shown none = false
is_shown (some hidden) = not hidden

-- The values of the attributes `data-auth-open` and `data-auth-gate` on the pages.
abbrev pub is_page_mode : Option Mode → Bool
is_page_mode none = true
is_page_mode (some signin) = true
is_page_mode (some signup) = true
is_page_mode (some m) = false

abbrev pub is_page_gate : Option Gate → Bool
is_page_gate (some (gate m)) = is_page_mode (some m)
is_page_gate g = true

unfoldable pub can_happen : Event → App → Bool
unfolding in_window
can_happen click_close a = a.form.is_open
can_happen escape a = true
can_happen click_signin_tab a = in_window a.form.view.tabs_hidden a
can_happen click_signup_tab a = in_window a.form.view.tabs_hidden a
can_happen click_hint a = in_window a.form.view.hint_hidden a
can_happen click_anon_signup a = in_window a.form.view.anon_signup_hidden a
can_happen click_anon_signin a = in_window a.form.view.anon_signin_hidden a
can_happen submit a = in_window a.form.view.form_hidden a
can_happen click_forgot_submit a = a.form.is_open && is_shown a.form.view.forgot_hidden
can_happen click_forgot_back a = a.form.is_open && is_shown a.form.view.forgot_hidden
can_happen click_reset a = in_window a.form.view.form_hidden a && not a.form.view.reset_hidden
can_happen click_sign_out a = a.form.logged_in_shown
can_happen (answer n) a = is_some (task_at n a.pending)
can_happen timer a = ltb 0 a.closings
can_happen (click_open m) a = is_page_mode m
can_happen (click_gate g hash) a = is_page_gate g
can_happen (click_dashboard hash) a = true
can_happen click_menu a = true
can_happen click_outside a = true
can_happen (type_email v) a = true
can_happen (type_password v) a = true
can_happen (type_forgot v) a = true

unfoldable pub handle : Event → App → App
handle (click_open m) a = on_open m a
handle (click_gate g hash) a = on_gate g hash a
handle (click_dashboard hash) a = on_dashboard_link hash a
handle click_close a = on_close a
handle escape a = on_escape a
handle click_signin_tab a = on_tab signin a
handle click_signup_tab a = on_tab signup a
handle click_hint a = on_switch_hint a
handle click_anon_signup a = on_anon_signup a
handle click_anon_signin a = on_anon_signin a
handle submit a = on_submit a
handle click_forgot_submit a = on_forgot_submit a
handle click_forgot_back a = on_forgot_back a
handle click_reset a = on_reset a
handle click_menu a = on_user_menu a
handle click_outside a = on_outside_click a
handle click_sign_out a = on_sign_out a
handle (answer n) a = settle n a
handle timer a = on_closing a
handle (type_email v) a = record a { form = record form { email_value = v } }
  where
    open a use {form}
handle (type_password v) a = record a { form = record form { password_value = v } }
  where
    open a use {form}
handle (type_forgot v) a = record a { form = record form { forgot_value = v } }
  where
    open a use {form}

-- A run of the page.
pub data Run (a : App) : App → Type 0 where
  here : Run a a
  next : {b : App} (e : Event) → Run a b → can_happen e b ≡ true → Run a (handle e b)
