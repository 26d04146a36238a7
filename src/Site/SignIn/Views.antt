-- ===== src/Site/SignIn/Views.antt =====
-- What the sign-in window shows in each mode (website/js/auth.js, lines 254-362), and that it shows
-- it on every run of the page.
use veritas_vpn.Base.{
  ℕ, Text, ◌≡◌, ◌⊎◌, Bool, true, false, not, ◌||◌, some, none, is_some, text, arith,
}
use mathlib.Core.Path.{sym, subst₂}
use veritas_vpn.Site.Modes.{Mode, signin, signup, anon_signup, anon_signin, forgot, is_signin, View}
use veritas_vpn.Site.SignIn.{App, Form, set_mode}
use veritas_vpn.Site.SignIn.Handlers.{
  on_open, on_gate, on_dashboard_link, on_close, on_escape, on_tab, on_switch_hint, on_anon_signup,
  on_anon_signin, on_submit, on_forgot_submit, on_forgot_back, on_reset, on_user_menu,
  on_outside_click, on_sign_out,
}
use veritas_vpn.Site.SignIn.Settle.{settle, on_closing, init_auth_ui}
use veritas_vpn.Site.SignIn.Events.{
  Event, click_open, click_gate, click_dashboard, click_close, escape, click_signin_tab,
  click_signup_tab, click_hint, click_anon_signup, click_anon_signin, submit, click_forgot_submit,
  click_forgot_back, click_reset, click_menu, click_outside, click_sign_out, answer, timer,
  type_email, type_password, type_forgot, can_happen, handle, Run, here, next,
}

abbrev is_forgot : Mode → Bool
is_forgot forgot = true
is_forgot m = false

abbrev is_anon_signup : Mode → Bool
is_anon_signup anon_signup = true
is_anon_signup m = false

abbrev is_anon_signin : Mode → Bool
is_anon_signin anon_signin = true
is_anon_signin m = false

abbrev is_signup : Mode → Bool
is_signup signup = true
is_signup m = false

-- The words of each mode; the submit button and the hint are hidden in the last one.
abbrev pub title_of : Mode → Text
title_of signin = text "Sign in"
title_of signup = text "Create account"
title_of anon_signup = text "Anonymous account"
title_of anon_signin = text "Sign in with Account ID"
title_of forgot = text "Reset password"

abbrev pub button_of : Mode → Text
button_of signin = text "Sign in"
button_of signup = text "Create account"
button_of anon_signup = text "Create anonymous account"
button_of anon_signin = text "Sign in"
button_of forgot = text ""

abbrev pub hint_of : Mode → Text
hint_of signin = text "Don't have an account? Sign up"
hint_of signup = text "Already have an account? Sign in"
hint_of m = text "Sign in with email and password"

abbrev pub is_email : Mode → Bool
is_email m = is_signin m || is_signup m

-- What the view must show in its mode: the form, the tabs and the hint but for the reset of a
-- password, each link only in its mode, and the inputs that the submission reads.
pub record IsRendered (m : Mode) (v : View) : Type 0 where
  pub form : v.form_hidden ≡ is_forgot m
  pub tabs : v.tabs_hidden ≡ is_forgot m
  pub hint : v.hint_hidden ≡ is_forgot m
  pub brand : v.brand_hidden ≡ is_forgot m
  pub divider : v.divider_hidden ≡ is_forgot m
  pub fields : v.fields_hidden ≡ is_anon_signup m
  pub reset : v.reset_hidden ≡ not (is_signin m || is_forgot m)
  pub anon_signup_link : v.anon_signup_hidden ≡ not (is_signup m)
  pub anon_signin_link : v.anon_signin_hidden ≡ not (is_signin m)
  pub title : v.title ≡ title_of m
  pub button : is_forgot m ≡ false → v.submit_text ≡ button_of m
  pub hint_words : is_forgot m ≡ false → v.hint_text ≡ hint_of m
  pub button_shown : v.submit_hidden ≡ false
  pub forgot_view : v.forgot_hidden ≡ some false → m ≡ forgot
  pub forgot_shown : v.forgot_hidden ≡ some true → is_forgot m ≡ false
  pub note_shown : v.note_hidden ≡ some true → is_anon_signup m ≡ false
  pub note_away : v.note_hidden ≡ some false → is_email m ≡ false
  pub text_input : m ≡ anon_signin → v.email_type ≡ text "text"
  pub email_input : is_email m ≡ true → v.email_type ≡ text "email"
  pub account_label : m ≡ anon_signin → v.email_label ≡ text "Account ID"
  pub email_label : (m ≡ signin) ⊎ (m ≡ signup) → v.email_label ≡ text "Email"
  pub password_shown : (m ≡ signin) ⊎ (m ≡ signup) → v.password_hidden ≡ false
  pub password_away : m ≡ anon_signin → v.password_hidden ≡ true

abbrev pub Rendered : App → Type 0
Rendered a = IsRendered a.form.mode a.form.view

on_submit_view :
    (a : App) → ((on_submit a).form.mode ≡ a.form.mode) × ((on_submit a).form.view ≡ a.form.view)
unfolding on_submit
on_submit_view a = ground arith

settle_view :
    (n : ℕ) (a : App)
    → ((settle n a).form.mode ≡ a.form.mode) × ((settle n a).form.view ≡ a.form.view)
unfolding settle
settle_view n a = ground arith

handle-Rendered : (e : Event) (a : App) → Rendered a → can_happen e a ≡ true → Rendered (handle e a)
unfolding handle can_happen
handle-Rendered (click_open m) a h p = unfold on_open in ground arith
handle-Rendered (click_gate g hash) a h p = unfold on_gate in ground arith
handle-Rendered (click_dashboard hash) a h p = unfold on_dashboard_link in ground arith
handle-Rendered click_close a h p = unfold on_close in ground arith
handle-Rendered escape a h p = unfold on_escape in ground arith
handle-Rendered click_signin_tab a h p = unfold on_tab in ground arith
handle-Rendered click_signup_tab a h p = unfold on_tab in ground arith
handle-Rendered click_hint a h p = unfold on_switch_hint in ground arith
handle-Rendered click_anon_signup a h p = unfold on_anon_signup in ground arith
handle-Rendered click_anon_signin a h p = unfold on_anon_signin in ground arith
handle-Rendered submit a h p = let (m, v) = on_submit_view a in subst₂ IsRendered (sym m) (sym v) h
handle-Rendered click_forgot_submit a h p = unfold on_forgot_submit in ground arith
handle-Rendered click_forgot_back a h p = unfold on_forgot_back in ground arith
handle-Rendered click_reset a h p = unfold on_reset in ground arith
handle-Rendered click_menu a h p = unfold on_user_menu in ground arith
handle-Rendered click_outside a h p = unfold on_outside_click in ground arith
handle-Rendered click_sign_out a h p = unfold on_sign_out in ground arith
handle-Rendered (answer n) a h p =
    let (m, v) = settle_view n a in subst₂ IsRendered (sym m) (sym v) h
handle-Rendered timer a h p = unfold on_closing in ground arith
handle-Rendered (type_email v) a h p = h
handle-Rendered (type_password v) a h p = h
handle-Rendered (type_forgot v) a h p = h

init-Rendered :
    (asks_signin asks_signup : Bool) (a : App) → Rendered (init_auth_ui asks_signin asks_signup a)
unfolding init_auth_ui
init-Rendered asks_signin asks_signup a = ground arith

Run-Rendered : {a b : App} → Rendered a → Run a b → Rendered b
Run-Rendered h here = h
Run-Rendered h (next {b = b} e r p) = handle-Rendered e b (Run-Rendered h r) p

-- Whatever the page showed before `initAuthUI`, after any run of events that the page allows the window shows
-- what belongs to its mode: the title; the form, the tabs, the brand, the divider and the hint with its words
-- but for the reset; the submit button with its text; the fields but for an anonymous account; each link in its
-- mode alone; label and type of the email input and the password where the mode reads them; on a page that
-- has the view for the reset, that view for the reset alone; on a page that has the note, the note with an
-- anonymous account and not with an email.
pub init-Run-Rendered :
    (asks_signin asks_signup : Bool) (a : App) {b : App}
    → Run (init_auth_ui asks_signin asks_signup a) b
    → Rendered b
init-Run-Rendered asks_signin asks_signup a r =
    Run-Rendered (init-Rendered asks_signin asks_signup a) r

-- Coming back to one of the two email modes undoes all that another mode changed: on one page, two
-- views that require the email input alike are the same after it, whatever they showed before.
pub set_mode_forgets :
    (m : Mode) (f g : Form)
    → is_signin m || is_signup m ≡ true
    → is_some f.view.note_hidden ≡ is_some g.view.note_hidden
    → is_some f.view.forgot_hidden ≡ is_some g.view.forgot_hidden
    → f.view.email_required ≡ g.view.email_required
    → (set_mode m f).view ≡ (set_mode m g).view
unfolding set_mode
set_mode_forgets signin f g e n r q = ground arith
set_mode_forgets signup f g e n r q = ground arith
set_mode_forgets anon_signup f g e n r q = cc
set_mode_forgets anon_signin f g e n r q = cc
set_mode_forgets forgot f g e n r q = cc

-- On a page without the view for the reset, the link to it leaves the open window without form, tabs
-- and hint.
pub on_reset_blank :
    (a : App)
    → a.form.busy ≡ false
    → a.form.view.forgot_hidden ≡ none
    → ((on_reset a).form.view.form_hidden ≡ true)
      × ((on_reset a).form.view.tabs_hidden ≡ true)
      × ((on_reset a).form.view.hint_hidden ≡ true)
      × ((on_reset a).form.view.forgot_hidden ≡ none)
unfolding on_reset
on_reset_blank a idle missing = ground arith
