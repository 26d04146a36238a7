-- ===== src/Extension/Closing.antt =====
-- The popup can be closed at any `await` of its handlers, and what they would do after it is not done:
-- clients/browser-extension/js/auth.js, lines 37-45 and 138-178.
use veritas_vpn.Base.{
  ℕ, zero, suc, ◌≡◌, ◌⊎◌, Bool, true, false, none, some, List, [], ◌∷◌, ◌++◌, Text, text, arith,
  refl, is_true, if◌then◌else◌,
}
use veritas_vpn.Extension.Auth.{
  ProxySettings, Browser, Session, get_session, clear_proxy, clear_session,
}
use veritas_vpn.Extension.Proxy.{proxy_configured, proxy_config, set_connected, connect, disconnect}

-- What a handler awaits of the browser, one at a time.
pub data Effect : Type 0 where
  set_rules : ProxySettings → Effect
  clear_rules forget : Effect
  mark : Bool → Effect
  set_badge set_color : Text → Effect

unfoldable pub perform : Effect → Browser → Browser
unfolding clear_proxy set_connected
perform (set_rules p) b = record b { rules = some p }
perform clear_rules b = clear_proxy b
perform forget b = record b {
  storage = record storage {
    user = none;
    access_token = none;
    refresh_token = none;
    connected = none;
  };
}
  where
    open b use {storage}
perform (mark connected) b = set_connected connected b
perform (set_badge t) b = record b { badge_text = t }
perform (set_color t) b = record b { badge_color = t }

abbrev pub rules_of : ProxySettings → List Effect
rules_of proxy = if proxy_configured proxy then set_rules (proxy_config proxy) ∷ [] else []

abbrev pub marks : List Effect
marks = mark true ∷ set_badge (text "ON") ∷ set_color (text "#00A8FF") ∷ []

-- The effects of `connect` with the session that it has read, of `disconnect` and of `clearSession`.
unfoldable pub connect_effects : Session → List Effect
unfolding proxy_configured proxy_config
connect_effects s = elim s.user [ none ↦ [] | some user ↦ rules_of s.proxy ++ marks ]

abbrev pub disconnect_effects : List Effect
disconnect_effects = clear_rules ∷ mark false ∷ set_badge [] ∷ []

abbrev pub sign_out_effects : List Effect
sign_out_effects = forget ∷ clear_rules ∷ []

unfoldable pub perform_all : List Effect → Browser → Browser
unfolding perform
perform_all [] b = b
perform_all (e ∷ es) b = perform_all es (perform e b)

-- The popup is closed after `n` of the effects.
unfoldable pub interrupted : ℕ → List Effect → Browser → Browser
unfolding perform
interrupted zero es b = b
interrupted (suc n) [] b = b
interrupted (suc n) (e ∷ es) b = interrupted n es (perform e b)

-- Not interrupted, the effects of the three handlers do what the handlers in one piece do.
pub effects_perform :
    (b : Browser)
    → (perform_all (connect_effects (get_session b)) b ≡ (connect b).1)
      × (perform_all disconnect_effects b ≡ disconnect b)
      × (perform_all sign_out_effects b ≡ clear_session b)
unfolding perform_all connect_effects connect disconnect clear_session get_session
effects_perform b = ground arith

interrupted-nil : (n : ℕ) (b : Browser) → interrupted n [] b ≡ b
unfolding interrupted
interrupted-nil zero b = refl
interrupted-nil (suc n) b = refl

interrupted-marks :
    (n : ℕ) (b : Browser)
    → is_true b.storage.connected ≡ false
    → let c = interrupted n marks b in
      (c.rules ≡ b.rules)
      × (((is_true c.storage.connected ≡ false) × (c.badge_text ≡ b.badge_text))
          ⊎ (c.storage.connected ≡ some true))
unfolding interrupted perform_all
interrupted-marks zero b off = ground arith
interrupted-marks (suc zero) b off = ground arith
interrupted-marks (suc (suc zero)) b off = ground arith
interrupted-marks (suc (suc (suc n))) b off =
    ground (arith, interrupted-nil n (perform_all marks b))

-- Wherever an attempt to connect of a signed-in user is interrupted, either the browser is neither
-- marked connected nor has its badge changed, or the rules that `connect` sets are in force and it is
-- marked connected: it never says `connected` before the rules are there.
pub interrupted-connect_effects :
    (n : ℕ) (b : Browser)
    → is_true b.storage.connected ≡ false
    → let c = interrupted n (connect_effects (get_session b)) b in
      ((is_true c.storage.connected ≡ false) × (c.badge_text ≡ b.badge_text))
      ⊎ ((c.storage.connected ≡ some true) × (c.rules ≡ (connect b).1.rules))
unfolding interrupted connect_effects connect get_session
interrupted-connect_effects zero b off = ground arith
interrupted-connect_effects (suc n) b off = ground (
  arith,
  interrupted-marks (suc n) b off,
  interrupted-marks n (record b { rules = some (proxy_config (get_session b).proxy) }) off,
)
