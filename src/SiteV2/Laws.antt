-- ===== src/SiteV2/Laws.antt =====
-- What holds of the sign-in window of website/js-v2/auth.js on every run of a page.
use veritas_vpn.Base.Waiting.{task_at, without}
use veritas_vpn.Base.{
  ℕ, zero, suc, none, List, ◌∷◌, refl, ap, length, if◌then◌else◌, ◌≡◌, true, false, Option, some,
  [], text, arith,
}
use veritas_vpn.Site.Modes as V1
use veritas_vpn.Site.Session.Refresh.{no_storage}
use veritas_vpn.Site.SignIn.{account_path, Pending}
use veritas_vpn.SiteV2.Modes.{
  Mode, signin, signup, anon_signup, anon_signin, is_anon, View, show_mode,
}
use veritas_vpn.SiteV2.Window.{App}
use veritas_vpn.SiteV2.Handlers.{
  on_open, on_gate, on_dashboard_link, on_close, on_escape, on_tab, on_switch_hint, on_anon_signup,
  on_anon_signin, on_submit, on_reset, on_user_menu, on_outside_click, on_sign_out,
}
use veritas_vpn.SiteV2.Events.{
  settle, Event, click_open, click_gate, click_dashboard, click_close, escape, click_signin_tab,
  click_signup_tab, click_hint, click_anon_signup, click_anon_signin, submit, click_reset,
  click_menu, click_outside, click_sign_out, answer, type_email, type_password, can_happen, handle,
  Run, here, next,
}

-- What must hold for one event is proved for each field of an invariant alone.
abbrev pub IsGuarded : App → Type 0
IsGuarded a = length a.pending ≡ (if a.form.busy then 1 else 0)

length-without :
    (n : ℕ) (ps : List Pending) (p : Pending)
    → task_at n ps ≡ some p
    → length ps ≡ suc (length (without n ps))
length-without n [] p e = ground arith
length-without zero (q ∷ ps) p e = refl
length-without (suc n) (q ∷ ps) p e = ap suc (length-without n ps p e)

settle-IsGuarded :
    (n : ℕ) (t : Option Pending) (a : App)
    → task_at n a.pending ≡ t
    → IsGuarded a
    → IsGuarded (settle n a)
unfolding settle
settle-IsGuarded n none a e h = ground arith
settle-IsGuarded n (some p) a e h = ground (arith, length-without n a.pending p e)

handle-IsGuarded : (e : Event) (a : App) → IsGuarded a → IsGuarded (handle e a)
unfolding handle
handle-IsGuarded (click_open m) a h = unfold on_open in ground arith
handle-IsGuarded (click_gate m hash) a h = unfold on_gate in ground arith
handle-IsGuarded (click_dashboard hash) a h = unfold on_dashboard_link in ground arith
handle-IsGuarded click_close a h = unfold on_close in ground arith
handle-IsGuarded escape a h = unfold on_escape in ground arith
handle-IsGuarded click_signin_tab a h = unfold on_tab in ground arith
handle-IsGuarded click_signup_tab a h = unfold on_tab in ground arith
handle-IsGuarded click_hint a h = unfold on_switch_hint in ground arith
handle-IsGuarded click_anon_signup a h = unfold on_anon_signup in ground arith
handle-IsGuarded click_anon_signin a h = unfold on_anon_signin in ground arith
handle-IsGuarded submit a h = unfold on_submit in ground arith
handle-IsGuarded click_reset a h = unfold on_reset in ground arith
handle-IsGuarded click_menu a h = unfold on_user_menu in ground arith
handle-IsGuarded click_outside a h = unfold on_outside_click in ground arith
handle-IsGuarded click_sign_out a h = unfold on_sign_out in ground arith
handle-IsGuarded (answer n) a h = settle-IsGuarded n (task_at n a.pending) a refl h
handle-IsGuarded (type_email v) a h = h
handle-IsGuarded (type_password v) a h = h

-- The password cannot be seen and is empty.
pub record IsLost (a : App) : Type 0 where
  pub away : a.form.view.password_display_none ≡ true
  pub empty : a.form.password_value ≡ []

handle-IsLost : (e : Event) (a : App) → can_happen e a ≡ true → IsLost a → IsLost (handle e a)
unfolding handle
handle-IsLost (click_open m) a p h = unfold on_open in ground arith
handle-IsLost (click_gate m hash) a p h = unfold on_gate in ground arith
handle-IsLost (click_dashboard hash) a p h = unfold on_dashboard_link in ground arith
handle-IsLost click_close a p h = unfold on_close in ground arith
handle-IsLost escape a p h = unfold on_escape in ground arith
handle-IsLost click_signin_tab a p h = unfold on_tab in ground arith
handle-IsLost click_signup_tab a p h = unfold on_tab in ground arith
handle-IsLost click_hint a p h = unfold on_switch_hint in ground arith
handle-IsLost click_anon_signup a p h = unfold on_anon_signup in ground arith
handle-IsLost click_anon_signin a p h = unfold on_anon_signin in ground arith
handle-IsLost submit a p h = unfold on_submit in ground arith
handle-IsLost click_reset a p h = unfold on_reset in ground arith
handle-IsLost click_menu a p h = unfold on_user_menu in ground arith
handle-IsLost click_outside a p h = unfold on_outside_click in ground arith
handle-IsLost click_sign_out a p h = unfold on_sign_out in ground arith
handle-IsLost (answer n) a p h = unfold settle in ground arith
handle-IsLost (type_email v) a p h = ground arith
handle-IsLost (type_password v) a p h = unfold can_happen in ground arith

Run-IsLost : {a b : App} → IsLost a → Run a b → IsLost b
Run-IsLost h here = h
Run-IsLost h (next {b = b} e r p) = handle-IsLost e b p (Run-IsLost h r)

anon_signin-IsLost : (a : App) → IsLost (on_anon_signin a)
unfolding on_anon_signin
anon_signin-IsLost a = ground arith

-- Once the sign-in by account ID was looked at, after any run of the page that has left it in the sign-in or
-- the registration by email, with no request waiting: the password is not displayed and is empty, and a
-- submission sends nothing, starts nothing and asks for the password.
pub password_lost :
    (a : App) {b : App}
    → Run (on_anon_signin a) b
    → b.form.busy ≡ false
    → is_anon b.form.mode ≡ false
    → (b.form.view.password_display_none ≡ true)
      × (b.form.password_value ≡ [])
      × ((on_submit b).site ≡ b.site)
      × ((on_submit b).pending ≡ b.pending)
      × ((on_submit b).form.error ≡ text "Email and password are required.")
unfolding on_submit
password_lost a {b} r idle email_mode = ground (arith, Run-IsLost (anon_signin-IsLost a) r)

-- However the page is used, from a start where it is so, one request of the window waits while it is marked
-- busy, and none otherwise.
pub Run-IsGuarded : {a b : App} → IsGuarded a → Run a b → IsGuarded b
Run-IsGuarded h here = h
Run-IsGuarded h (next {b = b} e r p) = handle-IsGuarded e b (Run-IsGuarded h r)

-- The mark that an anonymous account was made outlives the account's session: after a sign-out, the
-- button to create another one sends nothing and leads to the account page with nobody signed in.
pub anon_created_survives :
    (a : App) (m : Option Mode)
    → a.form.anon_created ≡ true
    → a.form.busy ≡ false
    → let b = on_submit (on_anon_signup (on_open m (on_sign_out a))) in
      (b.site.net ≡ a.site.net)
      × (b.site.storage ≡ no_storage)
      × (b.href ≡ some account_path)
      × (b.form.is_open ≡ false)
unfolding on_submit on_anon_signup on_open on_sign_out
anon_created_survives a m made idle = ground arith

abbrev pub first_mode : Mode → V1.Mode
first_mode signin = V1.signin
first_mode signup = V1.signup
first_mode anon_signup = V1.anon_signup
first_mode anon_signin = V1.anon_signin

-- The two versions of the window show the same title, submit button, links and input of the email, and the
-- first one hides none of the parts that the second one never hides.
pub record Agrees (v : V1.View) (w : View) : Type 0 where
  pub title : v.title ≡ w.title
  pub submit_text : v.submit_text ≡ w.submit_text
  pub submit_class : v.submit_class ≡ w.submit_class
  pub fields_hidden : v.fields_hidden ≡ w.fields_hidden
  pub reset_hidden : v.reset_hidden ≡ w.reset_hidden
  pub anon_signup_hidden : v.anon_signup_hidden ≡ w.anon_signup_hidden
  pub anon_signin_hidden : v.anon_signin_hidden ≡ w.anon_signin_hidden
  pub email_label : v.email_label ≡ w.email_label
  pub email_type : v.email_type ≡ w.email_type
  pub placeholder : v.placeholder ≡ w.placeholder
  pub email_autocomplete : v.email_autocomplete ≡ w.email_autocomplete
  pub email_required : v.email_required ≡ w.email_required
  pub form_shown : v.form_hidden ≡ false
  pub tabs_shown : v.tabs_hidden ≡ false
  pub brand_shown : v.brand_hidden ≡ false
  pub divider_shown : v.divider_hidden ≡ false
  pub submit_shown : v.submit_hidden ≡ false

-- Each of the four modes that both versions have, where the two windows agree before it, leaves them in
-- agreement: the same title, text and class of the submit button, the same of the fields and the links hidden,
-- the same label and attributes of the input of the email, and form, tabs, brand, divider and submit button of
-- the first one shown, as those of the second always are. (The hint, the note, the marked tab and the
-- password are not compared.)
pub show_mode-Agrees :
    (m : Mode) (v : V1.View) (w : View)
    → Agrees v w
    → Agrees (V1.show_mode (first_mode m) v) (show_mode m w)
unfolding show_mode V1.show_mode
show_mode-Agrees signin v w h = ground arith
show_mode-Agrees signup v w h = ground arith
show_mode-Agrees anon_signup v w h = ground arith
show_mode-Agrees anon_signin v w h = ground arith
