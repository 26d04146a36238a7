-- ===== src/Desktop/Samples.antt =====
-- Concrete states of the desktop client, for its tests.
use veritas_vpn.Base.{true, false, none, some, [], ◌∷◌, text, List}
use veritas_vpn.Base.Net.{Answer, answered, parsed}
use veritas_vpn.Api.{User, Data, empty_data}
use veritas_vpn.Site.Session.{json, LocalStorage}
use veritas_vpn.Desktop.Auth.{Reply, Client}
use veritas_vpn.Desktop.Attempt.{Desktop, signin, email, no_tunnel, wireguard, done, failed, other}
use veritas_vpn.Desktop.Connect.{KeyPair, ConnectResult, Native}

abbrev pub ann : User
ann = record {
  email = some (text "ann@x.org");
  account_id = some (text "a1");
  is_anonymous = false;
}

abbrev pub stored : LocalStorage
stored = record {
  user = some (json ann);
  access_token = some (text "t1");
  refresh_token = some (text "r1");
}

abbrev pub tokens : Data
tokens = record empty_data { access_token = some (text "t2"); refresh_token = some (text "r2") }

abbrev pub reply_of : Data → Reply
reply_of d = record {
  auth = d;
  peer_id = none;
  server_public_key = none;
  server_endpoint = none;
  assigned_ip = none;
  dns_server = none;
  preshared_key = none;
  allowed_ips = none;
  client_allowed_ips = none;
  code = none;
}

abbrev pub peer : Reply
peer = record (reply_of empty_data) {
  peer_id = some (text "p7");
  assigned_ip = some (text "10.0.0.7/32");
}

abbrev pub answers : List (Answer Reply)
answers =
    answered (record { status = 200; body = parsed (reply_of tokens) })
    ∷ answered (record { status = 201; body = parsed peer })
    ∷ answered (record { status = 204; body = parsed (reply_of empty_data) })
    ∷ []

abbrev pub desk : Desktop
desk = record {
  client = record { storage = stored; net = record { answers = answers; sent = [] } };
  user = some ann;
  mode = signin;
  method = email;
  email = [];
  password = [];
  account_id = [];
  new_account_id = [];
  error = [];
  loading = false;
  connected = false;
  tunnel_mode = no_tunnel;
  peer_id = [];
  status_msg = [];
  connecting = false;
  configs = [];
}

abbrev pub pair : KeyPair
pair = record { private_key = text "k"; public_key = text "K" }

abbrev pub good : ConnectResult
good = record { success = true; message = [] }

abbrev pub bad : ConnectResult
bad = record { success = false; message = text "no permission" }

abbrev pub working : Native
working = record {
  wireguard_available = done true;
  generate_wg_keys = done pair;
  connect_wireguard = done good;
  disconnect_wireguard = done good;
}

abbrev pub failing : Native
failing = record {
  wireguard_available = done true;
  generate_wg_keys = done pair;
  connect_wireguard = failed other;
  disconnect_wireguard = done bad;
}

abbrev pub connected_desk : Desktop
connected_desk = record desk { connected = true; tunnel_mode = wireguard; peer_id = text "p7" }

abbrev pub new_client : Client
new_client = record { storage = stored; net = record { answers = answers; sent = [] } }
