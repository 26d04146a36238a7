-- ===== src/Extension/Routing.antt =====
-- Connecting, disconnecting and signing out: clients/browser-extension/js/auth.js, lines 37-45 and
-- 130-182, popup.js, lines 150-179, and background.js.
use veritas_vpn.Base.{
  ◌≡◌, true, false, none, some, [], text, arith, refl, is_true, is_truthy, or_text_truthy,
  if◌then◌else◌,
}
use veritas_vpn.Api.{User}
use veritas_vpn.Extension.Auth.{ProxySettings, Storage, Browser, get_session}
use veritas_vpn.Extension.Proxy.{
  proxy_configured, proxy_config, connect, disconnect, on_alarm, save_proxy,
}
use veritas_vpn.Extension.Popup.{Popup, on_toggle, on_sign_out}

abbrev proxy_of : Popup → ProxySettings
proxy_of p = (get_session p.browser).proxy

-- The button of a signed-in user who is not connected: the browser is marked connected with the
-- badge on, the rules are those of the stored proxy if it names a host and stay as they were if it
-- does not, and the popup shows the connection.
pub on_toggle_connects :
    (p : Popup) (user : User)
    → p.browser.storage.user ≡ some user
    → is_true p.browser.storage.connected ≡ false
    → ((on_toggle p).browser.storage.connected ≡ some true)
      × ((on_toggle p).browser.badge_text ≡ text "ON")
      × ((on_toggle p).browser.rules ≡ (
          if proxy_configured (proxy_of p)
          then some (proxy_config (proxy_of p))
          else p.browser.rules))
      × ((on_toggle p).status.pressed ≡ true)
unfolding on_toggle
on_toggle_connects p user h off = ground arith

-- A second click undoes the first: the browser is marked not connected, the badge is empty, and no
-- rules are in force, where clearing them does not fail.
pub on_toggle_twice :
    (p : Popup) (user : User)
    → p.browser.storage.user ≡ some user
    → is_true p.browser.storage.connected ≡ false
    → p.browser.clear_rejects ≡ false
    → ((on_toggle (on_toggle p)).browser.storage.connected ≡ some false)
      × ((on_toggle (on_toggle p)).browser.badge_text ≡ [])
      × ((on_toggle (on_toggle p)).browser.rules ≡ none)
      × ((on_toggle (on_toggle p)).status.pressed ≡ false)
unfolding on_toggle
on_toggle_twice p user h off clears = ground arith

refusal_is_truthy : is_truthy (text "Sign in first") ≡ true
unfolding text
refusal_is_truthy = refl

-- Without a user the button changes nothing of the browser, and shows why.
pub on_toggle_signed_out :
    (p : Popup)
    → p.browser.storage.user ≡ none
    → is_true p.browser.storage.connected ≡ false
    → ((on_toggle p).browser ≡ p.browser)
      × ((on_toggle p).status ≡ p.status)
      × ((on_toggle p).banner ≡ text "Sign in first")
      × ((on_toggle p).banner_is_error ≡ true)
unfolding on_toggle
on_toggle_signed_out p h off =
    ground
      (arith, refusal_is_truthy, or_text_truthy (text "Sign in first") (text "Connection failed"))

-- Signing out in the popup removes user, tokens and connection from the storage and keeps the
-- proxy settings, shows the sign-in view, and leaves the badge as it was: a badge that says `ON`
-- still says so.
pub on_sign_out_keeps_badge :
    (p : Popup)
    → ((on_sign_out p).browser.storage ≡ record {
      user = none;
      access_token = none;
      refresh_token = none;
      connected = none;
      proxy = p.browser.storage.proxy;
    })
      × ((on_sign_out p).auth_hidden ≡ false)
      × ((on_sign_out p).main_hidden ≡ true)
      × ((on_sign_out p).browser.badge_text ≡ p.browser.badge_text)
unfolding on_sign_out
on_sign_out_keeps_badge p = ground arith

-- Where clearing the rules fails, signing out leaves them in force, though the popup shows that the
-- browser is not connected.
pub on_sign_out_keeps_rules :
    (p : Popup)
    → p.browser.clear_rejects ≡ true
    → ((on_sign_out p).browser.rules ≡ p.browser.rules) × ((on_sign_out p).status.pressed ≡ false)
unfolding on_sign_out
on_sign_out_keeps_rules p h = ground arith

abbrev pub empty_storage : Storage
empty_storage = record {
  user = none;
  access_token = none;
  refresh_token = none;
  connected = none;
  proxy = none;
}

-- The alarm of the background worker disconnects a browser that is marked connected without a user:
-- it is marked not connected, its badge is empty, and no rules are in force, where clearing them does
-- not fail.
pub on_alarm_disconnects :
    (b : Browser)
    → b.storage.user ≡ none
    → b.storage.connected ≡ some true
    → b.clear_rejects ≡ false
    → ((on_alarm b).storage.connected ≡ some false)
      × ((on_alarm b).badge_text ≡ [])
      × ((on_alarm b).rules ≡ none)
unfolding on_alarm
on_alarm_disconnects b h marked clears = ground arith

-- When all of the extension's data was cleared the alarm leaves the browser as it is, with the rules
-- that are in force and the badge.
pub on_alarm_after_clearing : (b : Browser) → b.storage ≡ empty_storage → on_alarm b ≡ b
unfolding on_alarm
on_alarm_after_clearing b h = ground arith

-- Saving other proxy settings while connected changes no rule: the old ones stay in force until the
-- browser is connected again.
pub save_proxy_waits :
    (p : ProxySettings) (b : Browser) (user : User)
    → b.storage.user ≡ some user
    → proxy_configured p ≡ true
    → ((save_proxy p b).rules ≡ b.rules)
      × ((connect (disconnect (save_proxy p b))).1.rules ≡ some (proxy_config p))
unfolding save_proxy connect disconnect
save_proxy_waits p b user h configured = ground arith
