-- ===== src/Desktop/Attempt.antt =====
-- The computations of the desktop client's connection handlers: they work on the application and the
-- two variables of `handleConnect` that its `catch` reads, and may throw.
use veritas_vpn.Base.{Bool, true, false, Option, List, Text}
use veritas_vpn.Api.{User}
use veritas_vpn.Desktop.Auth.{Client}

-- What is thrown: an `Error` with its message, or another value (as a command's rejection is).
pub data Failure : Type 0 where
  raised : Text → Failure
  other : Failure

pub data Outcome {ℓ} (A : Type ℓ) : Type ℓ where
  done : A → Outcome A
  failed : Failure → Outcome A

pub data AuthMode : Type 0 where
  signin signup : AuthMode

pub data AuthMethod : Type 0 where
  email account_id : AuthMethod

-- `TunnelMode`.
pub data TunnelMode : Type 0 where
  wireguard no_tunnel : TunnelMode

-- The configuration that is handed to `connect_wireguard`.
pub record Config : Type 0 where
  pub private_key : Text
  pub address : Option Text
  pub dns : Text
  pub server_public_key : Option Text
  pub endpoint : Option Text
  pub allowed_ips : List Text
  pub peer_id : Option Text
  pub preshared_key : Text

-- The state of `App`, with the client's storage and network and the configurations that were handed
-- to the tunnel.
pub record Desktop : Type 0 where
  pub client : Client
  pub user : Option User
  pub mode : AuthMode
  pub method : AuthMethod
  pub email : Text
  pub password : Text
  pub account_id : Text
  pub new_account_id : Text
  pub error : Text
  pub loading : Bool
  pub connected : Bool
  pub tunnel_mode : TunnelMode
  pub peer_id : Text
  pub status_msg : Text
  pub connecting : Bool
  pub configs : List Config

pub record Attempt : Type 0 where
  pub desktop : Desktop
  pub token : Text
  pub created_peer_id : Text

abbrev pub M : Type 0 → Type 0
M A = Attempt → Outcome A × Attempt

abbrev pub pure : {A : Type 0} → A → M A
pure x a = (done x, a)

abbrev pub then_run : {A B : Type 0} → Outcome A → (A → M B) → M B
then_run (done x) f a = f x a
then_run (failed e) f a = (failed e, a)

infixl 5 ◌>>=◌ ◌>>◌
abbrev pub ◌>>=◌ : {A B : Type 0} → M A → (A → M B) → M B
◌>>=◌ m f a = then_run (m a).0 f (m a).1

abbrev pub ◌>>◌ : {B : Type 0} → M (Unit {0}) → M B → M B
m >> k = m >>= λ u. k

-- `if (!condition) throw new Error(message)`.
abbrev pub require : Bool → Text → M (Unit {0})
require true message a = (done tt, a)
require false message a = (failed (raised message), a)

-- The result of a command.
abbrev pub from : {A : Type 0} → Outcome A → M A
from r a = (r, a)
