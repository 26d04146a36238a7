-- ===== src/Extension/Stranded.antt =====
-- A browser that is left with proxy rules and nobody signed in: clients/browser-extension/js/auth.js,
-- lines 37-45, with popup.js and background.js.
use veritas_vpn.Base.{◌≡◌, Bool, true, false, ◌&&◌, none, some, List, [], ◌∷◌, arith, is_true}
use veritas_vpn.Extension.Auth.{ProxySettings, Browser}
use veritas_vpn.Extension.Proxy.{on_installed, on_startup, on_alarm}
use veritas_vpn.Extension.Popup.{
  Popup, set_mode, on_method_toggle, refresh, on_toggle, on_save_proxy,
}
use veritas_vpn.Extension.Safety.{
  Event, open_popup, click_toggle, click_sign_out, submit, click_method, installed, startup, alarm,
  click_tab, click_save, type_email, type_password, type_account_id, type_host, handle,
}
use veritas_vpn.Extension.Closing.{interrupted, sign_out_effects}

-- Events of the popup of nobody, whose view has no button to sign out, but for those that sign in.
abbrev pub is_outside : Event → Bool
is_outside submit = false
is_outside click_sign_out = false
is_outside e = true

abbrev pub all_outside : List Event → Bool
all_outside [] = true
all_outside (e ∷ es) = is_outside e && all_outside es

unfoldable pub handle_all : List Event → Popup → Popup
unfolding handle
handle_all [] p = p
handle_all (e ∷ es) p = handle_all es (handle e p)

-- Nobody is signed in or connected, and rules are in force.
pub record IsStranded (r : ProxySettings) (b : Browser) : Type 0 where
  pub user : b.storage.user ≡ none
  pub off : is_true b.storage.connected ≡ false
  pub routed : b.rules ≡ some r

module _ (r : ProxySettings) where
  handle-IsStranded :
      (e : Event) (p : Popup)
      → is_outside e ≡ true
      → IsStranded r p.browser
      → IsStranded r (handle e p).browser
  unfolding handle
  handle-IsStranded open_popup p o h = unfold refresh in ground arith
  handle-IsStranded click_toggle p o h = unfold on_toggle in ground arith
  handle-IsStranded click_sign_out p o h = ground arith
  handle-IsStranded submit p o h = ground arith
  handle-IsStranded click_method p o h = unfold on_method_toggle in ground arith
  handle-IsStranded (click_tab m) p o h = unfold set_mode in ground arith
  handle-IsStranded (click_save port) p o h = unfold on_save_proxy in ground arith
  handle-IsStranded installed p o h = unfold on_installed in ground arith
  handle-IsStranded startup p o h = unfold on_startup in ground arith
  handle-IsStranded alarm p o h = unfold on_alarm in ground arith
  handle-IsStranded (type_email v) p o h = h
  handle-IsStranded (type_password v) p o h = h
  handle-IsStranded (type_account_id v) p o h = h
  handle-IsStranded (type_host v) p o h = h

  handle_all-IsStranded :
      (es : List Event) (p : Popup)
      → all_outside es ≡ true
      → IsStranded r p.browser
      → IsStranded r (handle_all es p).browser
  unfolding handle_all
  handle_all-IsStranded [] p o h = h
  handle_all-IsStranded (e ∷ es) p o h =
      handle_all-IsStranded es (handle e p) (ground arith) (handle-IsStranded e p (ground arith) h)

-- A sign-out that is interrupted between its two steps leaves the proxy rules in force with nobody signed
-- in, and nothing that can happen before the next sign-in takes them away, the alarm of the background
-- worker included.
pub sign_out_interrupted :
    (p : Popup) (r : ProxySettings) (es : List Event)
    → p.browser.rules ≡ some r
    → all_outside es ≡ true
    → let q = handle_all es (record p { browser = interrupted 1 sign_out_effects p.browser }) in
      (q.browser.rules ≡ some r)
      × (q.browser.storage.user ≡ none)
      × (is_true q.browser.storage.connected ≡ false)
unfolding interrupted
sign_out_interrupted p r es routed o =
    let closed = record p { browser = interrupted 1 sign_out_effects p.browser } in
    let stranded : IsStranded r closed.browser = ground arith in
    ground (arith, handle_all-IsStranded r es closed o stranded)
