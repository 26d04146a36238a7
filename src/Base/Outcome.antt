-- ===== src/Base/Outcome.antt =====
-- A value, or a thrown `Error` with its message.
use veritas_vpn.Base.Strings.{Text}

pub data Result {ℓ} (A : Type ℓ) : Type ℓ where
  ok : A → Result A
  throw : Text → Result A
