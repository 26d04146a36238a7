-- ===== src/Site/SignIn/Busy.antt =====
-- `busy` guards the requests of the sign-in window (website/js/auth.js, lines 381-385, 521, 606, 635).
use veritas_vpn.Base.Waiting.{task_at, without}
use veritas_vpn.Base.{
  ℕ, zero, suc, Option, some, none, List, [], ◌∷◌, refl, ap, length, if◌then◌else◌, ◌≡◌, true,
  arith,
}
use veritas_vpn.Site.SignIn.{App, Pending}
use veritas_vpn.Site.SignIn.Handlers.{
  on_open, on_gate, on_dashboard_link, on_close, on_escape, on_tab, on_switch_hint, on_anon_signup,
  on_anon_signin, on_submit, on_forgot_submit, on_forgot_back, on_reset, on_user_menu,
  on_outside_click, on_sign_out,
}
use veritas_vpn.Site.SignIn.Settle.{settle, on_closing}
use veritas_vpn.Site.SignIn.Events.{
  Event, click_open, click_gate, click_dashboard, click_close, escape, click_signin_tab,
  click_signup_tab, click_hint, click_anon_signup, click_anon_signin, submit, click_forgot_submit,
  click_forgot_back, click_reset, click_menu, click_outside, click_sign_out, answer, timer,
  type_email, type_password, type_forgot, handle, Run, here, next,
}

abbrev pub IsGuarded : App → Type 0
IsGuarded a = length a.pending ≡ (if a.form.busy then 1 else 0)

length-without :
    (n : ℕ) (ps : List Pending) (p : Pending)
    → task_at n ps ≡ some p
    → length ps ≡ suc (length (without n ps))
length-without n [] p e = ground arith
length-without zero (q ∷ ps) p e = refl
length-without (suc n) (q ∷ ps) p e = ap suc (length-without n ps p e)

settle-IsGuarded :
    (n : ℕ) (t : Option Pending) (a : App)
    → task_at n a.pending ≡ t
    → IsGuarded a
    → IsGuarded (settle n a)
unfolding settle
settle-IsGuarded n none a e h = ground arith
settle-IsGuarded n (some p) a e h = ground (arith, length-without n a.pending p e)

handle-IsGuarded : (e : Event) (a : App) → IsGuarded a → IsGuarded (handle e a)
unfolding handle
handle-IsGuarded (click_open m) a h = unfold on_open in ground arith
handle-IsGuarded (click_gate m hash) a h = unfold on_gate in ground arith
handle-IsGuarded (click_dashboard hash) a h = unfold on_dashboard_link in ground arith
handle-IsGuarded click_close a h = unfold on_close in ground arith
handle-IsGuarded escape a h = unfold on_escape in ground arith
handle-IsGuarded click_signin_tab a h = unfold on_tab in ground arith
handle-IsGuarded click_signup_tab a h = unfold on_tab in ground arith
handle-IsGuarded click_hint a h = unfold on_switch_hint in ground arith
handle-IsGuarded click_anon_signup a h = unfold on_anon_signup in ground arith
handle-IsGuarded click_anon_signin a h = unfold on_anon_signin in ground arith
handle-IsGuarded submit a h = unfold on_submit in ground arith
handle-IsGuarded click_forgot_submit a h = unfold on_forgot_submit in ground arith
handle-IsGuarded click_forgot_back a h = unfold on_forgot_back in ground arith
handle-IsGuarded click_reset a h = unfold on_reset in ground arith
handle-IsGuarded click_menu a h = unfold on_user_menu in ground arith
handle-IsGuarded click_outside a h = unfold on_outside_click in ground arith
handle-IsGuarded click_sign_out a h = unfold on_sign_out in ground arith
handle-IsGuarded (answer n) a h = settle-IsGuarded n (task_at n a.pending) a refl h
handle-IsGuarded timer a h = unfold on_closing in ground arith
handle-IsGuarded (type_email v) a h = h
handle-IsGuarded (type_password v) a h = h
handle-IsGuarded (type_forgot v) a h = h

-- However the page is used, from a start where it is so: no more than one request of the window waits for its
-- answer, and one exactly while the window is marked busy.
pub Run-IsGuarded : {a b : App} → IsGuarded a → Run a b → IsGuarded b
Run-IsGuarded h here = h
Run-IsGuarded h (next {b = b} e r p) = handle-IsGuarded e b (Run-IsGuarded h r)

-- While a request of the window waits, a second submission of either form, in any mode, leaves the
-- whole page as it is; so does a click on the reset link.
pub busy_submit_ignored :
    (a : App)
    → a.form.busy ≡ true
    → (handle submit a ≡ a) × (handle click_forgot_submit a ≡ a) × (handle click_reset a ≡ a)
unfolding handle on_submit on_forgot_submit on_reset
busy_submit_ignored a h = ground arith
