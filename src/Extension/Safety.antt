-- ===== src/Extension/Safety.antt =====
-- What the popup and the background worker keep true of the browser, in any order of their handlers.
use veritas_vpn.Base.{ℕ, ◌≡◌, true, false, Text, arith, is_true, is_some}
use veritas_vpn.Extension.Auth.{
  Browser, sign_in, sign_up, sign_in_with_account_id, register_anonymous,
}
use veritas_vpn.Extension.Proxy.{on_installed, on_startup, on_alarm}
use veritas_vpn.Extension.Popup.{
  Mode, Popup, set_mode, on_method_toggle, refresh, on_submit, on_toggle, on_sign_out,
  on_save_proxy,
}

-- The browser is marked connected only for a signed-in user, and its traffic goes through the proxy
-- only while it is marked connected.
pub record IsSafe (b : Browser) : Type 0 where
  pub connected_has_user : is_true b.storage.connected ≡ true → is_some b.storage.user ≡ true
  pub routed_is_connected : is_some b.rules ≡ true → is_true b.storage.connected ≡ true
  pub clears : b.clear_rejects ≡ false

-- The popup shows the connection that is stored.
pub record IsShown (p : Popup) : Type 0 where
  pub safe : IsSafe p.browser
  pub pressed : p.status.pressed ≡ is_true p.browser.storage.connected

pub data Event : Type 0 where
  open_popup click_toggle click_sign_out submit click_method installed startup alarm : Event
  click_tab : Mode → Event
  click_save : ℕ → Event
  type_email type_password type_account_id type_host : Text → Event

-- An event of the popup or of the background worker.
unfoldable pub handle : Event → Popup → Popup
handle open_popup p = refresh p
handle click_toggle p = on_toggle p
handle click_sign_out p = on_sign_out p
handle submit p = on_submit p
handle click_method p = on_method_toggle p
handle (click_tab m) p = set_mode m p
handle (click_save port) p = on_save_proxy port p
handle installed p = record p { browser = on_installed p.browser }
handle startup p = record p { browser = on_startup p.browser }
handle alarm p = record p { browser = on_alarm p.browser }
handle (type_email v) p = record p { email_value = v }
handle (type_password v) p = record p { password_value = v }
handle (type_account_id v) p = record p { account_id_value = v }
handle (type_host v) p = record p { proxy_host = v }

pub data Run (p : Popup) : Popup → Type 0 where
  here : Run p p
  next : {q : Popup} (e : Event) → Run p q → Run p (handle e q)

sign_in-IsShown : (p : Popup) → IsShown p → IsShown (on_submit p)
unfolding on_submit sign_in sign_up sign_in_with_account_id register_anonymous
sign_in-IsShown p h = ground arith

handle-IsShown : (e : Event) (p : Popup) → IsShown p → IsShown (handle e p)
unfolding handle
handle-IsShown open_popup p h = unfold refresh in ground arith
handle-IsShown click_toggle p h = unfold on_toggle in ground arith
handle-IsShown click_sign_out p h = unfold on_sign_out in ground arith
handle-IsShown submit p h = sign_in-IsShown p h
handle-IsShown click_method p h = unfold on_method_toggle in ground arith
handle-IsShown (click_tab m) p h = unfold set_mode in ground arith
handle-IsShown (click_save port) p h = unfold on_save_proxy in ground arith
handle-IsShown installed p h = unfold on_installed in ground arith
handle-IsShown startup p h = unfold on_startup in ground arith
handle-IsShown alarm p h = unfold on_alarm in ground arith
handle-IsShown (type_email v) p h = ground arith
handle-IsShown (type_password v) p h = ground arith
handle-IsShown (type_account_id v) p h = ground arith
handle-IsShown (type_host v) p h = ground arith

-- On every run of the popup and the background worker, from a state in which this holds: the browser
-- is marked connected only for a signed-in user, proxy rules are in force only while it is marked
-- connected, and the popup's button shows what is stored, where clearing the rules never fails.
pub Run-IsShown : {p q : Popup} → IsShown p → Run p q → IsShown q
Run-IsShown h here = h
Run-IsShown h (next {q = q} e r) = handle-IsShown e q (Run-IsShown h r)
