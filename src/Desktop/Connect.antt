-- ===== src/Desktop/Connect.antt =====
-- clients/desktop/src/App.tsx, lines 172-253: `handleConnect`.
use veritas_vpn.Base.{
  Bool, true, false, Option, none, some, List, [], ◌∷◌, ◌++◌, Text, text, is_truthy, or_text,
  or_else, ◌&&◌, starts_with, if◌then◌else◌,
}
use veritas_vpn.Base.Net.{
  post, delete, Request, parsed, unreadable, Answer, rejected, answered, is_ok, fetch,
}
use veritas_vpn.Api.{auth_api}
use veritas_vpn.Desktop.Auth.{Reply, refresh_session, get_stored_token}
use veritas_vpn.Desktop.Attempt.{
  Failure, raised, other, Outcome, done, failed, Config, Desktop, wireguard, Attempt, M, ◌>>=◌,
  ◌>>◌, require, from,
}

pub record KeyPair : Type 0 where
  pub private_key : Text
  pub public_key : Text

pub record ConnectResult : Type 0 where
  pub success : Bool
  pub message : Text

-- What the native commands will answer.
pub record Native : Type 0 where
  pub wireguard_available : Outcome Bool
  pub generate_wg_keys : Outcome KeyPair
  pub connect_wireguard : Outcome ConnectResult
  pub disconnect_wireguard : Outcome ConnectResult

-- `await refreshSession(); token = getStoredToken() || ""`.
unfoldable pub renew_token : M (Unit {0})
unfolding refresh_session get_stored_token
renew_token a =
    let client = (refresh_session a.desktop.client).1 in
    (
      done tt,
      record a {
        desktop = record desktop { client = client };
        token = or_else (get_stored_token client) [];
      },
    )
  where
    open a use {desktop}

unfoldable pub token_is_there : M (Unit {0})
token_is_there a = require (is_truthy a.token) (text "Not signed in") a

abbrev pub peers_url : Text
peers_url = auth_api ++ text "/api/v1/wg/peers"

abbrev pub create_request : Text → Text → Request
create_request token public_key = record {
  method = post;
  url = peers_url;
  authorization = some (text "Bearer " ++ token);
  content_json = true;
  body = (text "public_key", public_key) ∷ [];
}

abbrev pub delete_request : Text → Text → Request
delete_request token peer_id = record {
  method = delete;
  url = peers_url ++ (text "/" ++ peer_id);
  authorization = some (text "Bearer " ++ token);
  content_json = false;
  body = [];
}

abbrev is_device_limit : Option Text → Bool
is_device_limit none = false
is_device_limit (some code) = starts_with code (text "plan_device_limit")

refusal : Reply → Text
refusal peer =
    if is_device_limit peer.code
    then or_else peer.auth.error (
        text
          "Device limit reached. Upgrade to Premium for more devices, or disconnect another device first.")
    else or_else peer.auth.error (text "Failed to create WireGuard peer")

unfoldable pub read_peer : Answer Reply → Outcome Reply
unfolding refusal
read_peer (rejected message) = failed (raised message)
read_peer (answered res) = elim res.body [
  | unreadable message ↦ failed (raised message)
  | parsed peer ↦ if is_ok res then done peer else failed (raised (refusal peer))
]

-- `POST /api/v1/wg/peers`; a success is noted in `createdPeerId`.
unfoldable pub noted : Outcome Reply → Attempt → Outcome Reply × Attempt
noted (done peer) a = (done peer, record a { created_peer_id = or_else peer.peer_id [] })
noted (failed e) a = (failed e, a)

unfoldable pub create_peer : Text → M Reply
unfolding fetch read_peer noted
create_peer public_key a =
    let (answer, net) = fetch (create_request a.token public_key) a.desktop.client.net in
    noted (read_peer answer)
      (record a { desktop = record desktop { client = record (client) { net = net } } })
  where
    open a use {desktop}
    open desktop use {client}

abbrev or_ips : Option (List Text) → List Text → List Text
or_ips none d = d
or_ips (some ips) d = ips

unfoldable pub config_of : KeyPair → Reply → Config
config_of keys peer = record {
  private_key = keys.private_key;
  address = peer.assigned_ip;
  dns = or_else peer.dns_server (text "1.1.1.1");
  server_public_key = peer.server_public_key;
  endpoint = peer.server_endpoint;
  allowed_ips =
      or_ips peer.client_allowed_ips
        (or_ips peer.allowed_ips (text "0.0.0.0/0" ∷ text "::/0" ∷ []));
  peer_id = peer.peer_id;
  preshared_key = or_else peer.preshared_key [];
}

-- `connect_wireguard`; the configuration is handed over whatever it answers.
unfoldable pub bring_up : Outcome ConnectResult → Config → M ConnectResult
bring_up result config a =
    (result, record a { desktop = record desktop { configs = desktop.configs ++ (config ∷ []) } })
  where
    open a use {desktop}

unfoldable pub show_connected : Reply → M (Unit {0})
show_connected peer a = (
  done tt,
  record a {
    desktop = record desktop {
      connected = true;
      tunnel_mode = wireguard;
      peer_id = or_else peer.peer_id [];
      status_msg = text "Connected via WireGuard";
    };
  },
)
  where
    open a use {desktop}

-- The body of the `try`.
unfoldable pub try_connect : Native → M (Unit {0})
unfolding renew_token token_is_there create_peer config_of bring_up show_connected
try_connect native = do
  renew_token
  token_is_there
  available ← from native.wireguard_available
  require available
      (text "WireGuard is unavailable in this build. No proxy fallback was activated.")
  keys ← from native.generate_wg_keys
  peer ← create_peer keys.public_key
  result ← bring_up native.connect_wireguard (config_of keys peer)
  require result.success (or_text result.message (text "WireGuard connection failed"))
  show_connected peer

-- `await fetch(…, { method: "DELETE" }).catch(() => undefined)`.
unfoldable pub delete_peer : Text → Text → Desktop → Desktop
unfolding fetch
delete_peer token peer_id d = record d {
  client = record client { net = (fetch (delete_request token peer_id) client.net).1 };
}
  where
    open d use {client}

abbrev pub failure_text : Failure → Text → Text
failure_text (raised message) default = message
failure_text other default = default

-- The `catch`: what the attempt created is rolled back.
roll_back : Failure → Attempt → Desktop
unfolding delete_peer
roll_back e a =
    let d =
      if is_truthy a.created_peer_id && is_truthy a.token
      then delete_peer a.token a.created_peer_id a.desktop
      else a.desktop in
    record d { status_msg = failure_text e (text "Connection failed") }

unfoldable pub settled : Outcome (Unit {0}) → Attempt → Desktop
unfolding roll_back
settled (done u) a = a.desktop
settled (failed e) a = roll_back e a

abbrev pub start_attempt : Desktop → Attempt
start_attempt d = record {
  desktop = record d { status_msg = []; connecting = true };
  token = [];
  created_peer_id = [];
}

unfoldable pub handle_connect : Native → Desktop → Desktop
unfolding try_connect settled
handle_connect native d =
    let (result, a) = try_connect native (start_attempt d) in
    if d.connecting then d else record (settled result a) { connecting = false }
