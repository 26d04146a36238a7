-- ===== src/Extension/Alone.antt =====
-- A handler of the extension with nothing in between: popup.js and background.js of
-- clients/browser-extension/js.
use veritas_vpn.Base.{◌≡◌, refl, none, arith}
use veritas_vpn.Base.Waiting.{run_on}
use veritas_vpn.Extension.Auth.{sign_in, sign_up, sign_in_with_account_id, register_anonymous}
use veritas_vpn.Extension.Proxy.{disconnect, on_installed, on_startup, on_alarm}
use veritas_vpn.Extension.Popup.{Popup, on_submit, on_toggle, on_sign_out, on_save_proxy, refresh}
use veritas_vpn.Extension.Safety.{
  Event, open_popup, click_toggle, click_sign_out, submit, click_method, installed, startup, alarm,
  click_tab, click_save, type_email, type_password, type_account_id, type_host, handle,
}
use veritas_vpn.Extension.Async.{begin_toggle, begin_sign_out, begin_submit, begin_save, resume}
use veritas_vpn.Extension.World.{begin}

run_on-toggle : (p : Popup) → run_on resume 6 (begin_toggle p) ≡ (on_toggle p, none)
unfolding begin_toggle resume on_toggle
run_on-toggle p = ground arith

run_on-sign_out : (p : Popup) → run_on resume 6 (begin_sign_out p) ≡ (on_sign_out p, none)
unfolding begin_sign_out resume on_sign_out
run_on-sign_out p = ground arith

run_on-submit : (p : Popup) → run_on resume 6 (begin_submit p) ≡ (on_submit p, none)
unfolding begin_submit resume on_submit sign_in sign_up sign_in_with_account_id register_anonymous
run_on-submit p = ground arith

-- With nothing in between, each handler of the popup and the background worker comes to its end within six
-- steps, and has done then what the handler in one piece does.
pub run_on-begin : (e : Event) (p : Popup) → run_on resume 6 (begin e p) ≡ (handle e p, none)
unfolding begin handle resume
run_on-begin open_popup p = unfold refresh in ground arith
run_on-begin click_toggle p = run_on-toggle p
run_on-begin click_sign_out p = run_on-sign_out p
run_on-begin submit p = run_on-submit p
run_on-begin click_method p = refl
run_on-begin (click_tab m) p = refl
run_on-begin (click_save port) p = unfold begin_save in unfold on_save_proxy in ground arith
run_on-begin installed p = unfold on_installed in ground arith
run_on-begin startup p = unfold on_startup in ground arith
run_on-begin alarm p = unfold on_alarm in unfold disconnect in ground arith
run_on-begin (type_email v) p = refl
run_on-begin (type_password v) p = refl
run_on-begin (type_account_id v) p = refl
run_on-begin (type_host v) p = refl
