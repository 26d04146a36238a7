-- ===== src/Extension/Tests.antt =====
-- The extension at concrete states.
use veritas_vpn.Base.{
  ◌≡◌, refl, is_some, is_true, ◌⊎◌, not, ◌&&◌, true, false, none, some, [], ◌∷◌, text, arith, trim,
}
use veritas_vpn.Extension.Auth.{Browser, get_session, sign_in, default_proxy}
use veritas_vpn.Extension.Popup.{Popup, on_toggle, on_submit}
use veritas_vpn.Extension.Safety.{
  IsShown, open_popup, Run, here, next, click_toggle, click_sign_out, submit, alarm, handle,
}
use veritas_vpn.Extension.Proxy.{connect}
use veritas_vpn.Extension.Closing.{
  interrupted, connect_effects, sign_out_effects, interrupted-connect_effects,
}
use veritas_vpn.Extension.Stranded.{handle_all, sign_out_interrupted}
use veritas_vpn.Extension.Switch.{Trace, events, view, is_on, Run-refines}
use veritas_vpn.Extension.Samples.{idle, popup}

-- The first connection goes through the default proxy.
default_route : (on_toggle popup).browser.rules ≡ some default_proxy
unfolding on_toggle text trim
default_route = refl

-- Another user signs in by email; the refresh token that the answer lacks stays the old one.
signs_in :
    ((on_submit popup).browser.storage.access_token ≡ some (text "t2"))
    × ((on_submit popup).browser.storage.refresh_token ≡ some (text "r"))
    × ((on_submit popup).user_email ≡ text "bob@x.org")
unfolding on_submit text trim sign_in
signs_in = (refl, refl, refl)

popup-IsShown : IsShown popup
popup-IsShown = ground arith

abbrev session :
    Run popup (handle alarm (handle click_sign_out (handle submit (handle click_toggle popup))))
session = next alarm (next click_sign_out (next submit (next click_toggle here)))

Run-refines_example :
    Trace (view popup.browser) (events session) (
      view
        (handle alarm (handle click_sign_out (handle submit (handle click_toggle popup)))).browser)
    × ((handle alarm
          (handle click_sign_out (handle submit (handle click_toggle popup)))).status.pressed
        ≡ is_on (
            view
              (handle alarm
                (handle click_sign_out (handle submit (handle click_toggle popup)))).browser))
    × (is_some
            (handle alarm
              (handle click_sign_out (handle submit (handle click_toggle popup)))).browser.rules
          && not (
              is_on (
                view
                  (handle alarm
                    (handle click_sign_out (handle submit (handle click_toggle popup)))).browser))
        ≡ false)
Run-refines_example = Run-refines popup-IsShown session

abbrev routed : Popup
routed = record popup {
  browser = record idle { rules = some default_proxy; badge_text = text "ON" };
}

-- The popup is closed once the rules are set.
interrupted-connect_effects_example :
    ((is_true (interrupted 1 (connect_effects (get_session idle)) idle).storage.connected ≡ false)
      × ((interrupted 1 (connect_effects (get_session idle)) idle).badge_text ≡ []))
    ⊎ (((interrupted 1 (connect_effects (get_session idle)) idle).storage.connected ≡ some true)
        × ((interrupted 1 (connect_effects (get_session idle)) idle).rules
            ≡ (connect idle).1.rules))
interrupted-connect_effects_example = interrupted-connect_effects 1 idle refl

sign_out_interrupted_example :
    ((handle_all
        (open_popup ∷ click_toggle ∷ alarm ∷ [])
        (record routed { browser = interrupted 1 sign_out_effects routed.browser })).browser.rules
      ≡ some default_proxy)
    × ((handle_all (open_popup ∷ click_toggle ∷ alarm ∷ []) (record routed {
      browser = interrupted 1 sign_out_effects routed.browser;
    })).browser.storage.user
        ≡ none)
    × (is_true
          (handle_all (open_popup ∷ click_toggle ∷ alarm ∷ []) (record routed {
            browser = interrupted 1 sign_out_effects routed.browser;
          })).browser.storage.connected
        ≡ false)
sign_out_interrupted_example =
    sign_out_interrupted routed default_proxy (open_popup ∷ click_toggle ∷ alarm ∷ []) refl refl

abbrev connected : Browser
connected = record idle {
  storage = record (idle.storage) { connected = some true };
  rules = some default_proxy;
  badge_text = text "ON";
}
