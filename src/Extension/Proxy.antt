-- ===== src/Extension/Proxy.antt =====
-- clients/browser-extension/js/auth.js, lines 134-182, and background.js: routing the browser through
-- the proxy, and the badge.
use veritas_vpn.Base.{
  ℕ, Bool, true, false, not, ◌&&◌, none, some, [], text, is_truthy, or_text, trim, is_some,
  if◌then◌else◌, Result, ok, throw, ◌==◌,
}
use veritas_vpn.Extension.Auth.{ProxySettings, Browser, get_session, clear_proxy}

unfoldable pub proxy_configured : ProxySettings → Bool
proxy_configured p = is_truthy p.host && is_truthy (trim p.host)

-- `Number(proxy.port) || 1080`.
abbrev pub port_or_default : ℕ → ℕ
port_or_default n = if n == 0 then 1080 else n

-- The configuration that `connect` sets.
unfoldable pub proxy_config : ProxySettings → ProxySettings
proxy_config p = record {
  scheme = or_text p.scheme (text "socks5");
  host = p.host;
  port = port_or_default p.port;
}

unfoldable pub set_connected : Bool → Browser → Browser
set_connected connected b = record b { storage = record storage { connected = some connected } }
  where
    open b use {storage}

apply_proxy : ProxySettings → Browser → Browser
unfolding proxy_configured proxy_config
apply_proxy p b = if proxy_configured p then record b { rules = some (proxy_config p) } else b

-- `connect`; the result is `demo`.
unfoldable pub connect : Browser → Result Bool × Browser
unfolding get_session apply_proxy set_connected
connect b = elim (get_session b).user [
  | none ↦ (throw (text "Sign in first"), b)
  | some user ↦
      let proxy = (get_session b).proxy in
      (
        ok (not (proxy_configured proxy)),
        record (set_connected true (apply_proxy proxy b)) {
          badge_text = text "ON";
          badge_color = text "#00A8FF";
        },
      )
]

unfoldable pub disconnect : Browser → Browser
unfolding clear_proxy set_connected
disconnect b = record (set_connected false (clear_proxy b)) { badge_text = [] }

unfoldable pub save_proxy : ProxySettings → Browser → Browser
save_proxy proxy b = record b { storage = record storage { proxy = some proxy } }
  where
    open b use {storage}

-- The listeners of background.js.
unfoldable pub on_installed : Browser → Browser
unfolding get_session
on_installed b =
    if (get_session b).connected
    then record b { badge_text = text "ON"; badge_color = text "#00A8FF" }
    else b

unfoldable pub on_startup : Browser → Browser
unfolding get_session
on_startup b = if not (get_session b).connected then record b { badge_text = [] } else b

-- The alarm `veritas-health`.
unfoldable pub on_alarm : Browser → Browser
unfolding get_session disconnect
on_alarm b =
    if not (is_some (get_session b).user) && (get_session b).connected then disconnect b else b
