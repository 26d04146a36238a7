-- ===== src/Desktop/Handlers.antt =====
-- clients/desktop/src/App.tsx, lines 127-170 and 255-305: the account form, `handleDisconnect` and
-- `handleSignOut`. The value of a state variable is the one at the time of the click.
use veritas_vpn.Base.{
  Bool, true, false, ◌&&◌, ◌||◌, Option, none, some, [], Text, text, is_truthy, or_text, or_else,
  if◌then◌else◌, Result, ok, throw,
}
use veritas_vpn.Api.{User}
use veritas_vpn.Desktop.Auth.{
  Client, get_stored_token, sign_in, sign_up, sign_in_with_account_id, register_anonymous, sign_out,
}
use veritas_vpn.Desktop.Attempt.{
  AuthMode, signin, signup, AuthMethod, email, account_id, TunnelMode, wireguard, no_tunnel,
  Desktop, Outcome, done, failed,
}
use veritas_vpn.Desktop.Connect.{ConnectResult, Native, delete_peer, failure_text}

unfoldable pub switch_mode : AuthMode → Desktop → Desktop
switch_mode next d = record d { mode = next; method = email; error = []; new_account_id = [] }

unfoldable pub switch_method : AuthMethod → Desktop → Desktop
switch_method next d = record d { method = next; error = []; new_account_id = [] }

-- The call that `handleAuth` makes.
unfoldable pub authenticate : AuthMethod → AuthMode → Desktop → Result User × Client
authenticate account_id signin d = sign_in_with_account_id d.account_id d.client
authenticate account_id signup d = register_anonymous d.client
authenticate email signin d = sign_in d.email d.password d.client
authenticate email signup d = sign_up d.email d.password d.client

-- What it does with the user.
unfoldable pub authenticated : AuthMethod → AuthMode → User → Desktop → Desktop
authenticated account_id signin user d = record d { user = some user; account_id = [] }
authenticated account_id signup user d = record d {
  user = some user;
  new_account_id = or_else user.account_id [];
}
authenticated email mode user d = record d { user = some user; email = []; password = [] }

unfoldable pub answered_auth : Result User → Desktop → Desktop
unfolding authenticated
answered_auth (ok user) d = authenticated d.method d.mode user d
answered_auth (throw message) d = record d { error = message }

unfoldable pub handle_auth : Desktop → Desktop
unfolding authenticate answered_auth
handle_auth d =
    let (result, client) = authenticate d.method d.mode d in
    record (answered_auth result (record d { error = []; client = client })) { loading = false }

-- `clearUi`.
unfoldable pub clear_ui : Desktop → Desktop
clear_ui d = record d { connected = false; tunnel_mode = no_tunnel; peer_id = [] }

abbrev pub is_wireguard : TunnelMode → Bool
is_wireguard wireguard = true
is_wireguard no_tunnel = false

abbrev pub has_tunnel : Desktop → Bool
has_tunnel d = is_wireguard d.tunnel_mode || is_truthy d.peer_id

-- The disconnect up to its first `await`.
unfoldable pub start_disconnect : Desktop → Desktop
start_disconnect d = record d { status_msg = text "Disconnecting…" }

-- The peer is removed from the server if there is a token and a peer.
drop_peer : Option Text → Text → Desktop → Desktop
unfolding delete_peer
drop_peer token peer_id d =
    if is_truthy (or_else token []) && is_truthy peer_id
    then delete_peer (or_else token []) peer_id d
    else d

torn_down : Outcome ConnectResult → Option Text → Text → Desktop → Desktop
unfolding clear_ui drop_peer
torn_down (failed e) token peer_id d = record (clear_ui d) {
  status_msg = failure_text e (text "Disconnect failed — approve the macOS admin prompt");
}
torn_down (done result) token peer_id d =
    if result.success
    then record (clear_ui (drop_peer token peer_id (clear_ui d))) {
      status_msg = text "Disconnected";
    }
    else record (clear_ui d) {
      status_msg = or_text result.message (
          text
            "Disconnect incomplete — approve the admin prompt, or run the teardown script from your app config directory");
    }

-- The rest of the disconnect, with the token and the peer that were read before the `await`.
unfoldable pub resume_disconnect : Native → Option Text → Text → Desktop → Desktop
unfolding torn_down
resume_disconnect native token peer_id d = torn_down native.disconnect_wireguard token peer_id d

unfoldable pub handle_disconnect : Native → Desktop → Desktop
unfolding start_disconnect resume_disconnect get_stored_token clear_ui
handle_disconnect native d =
    if has_tunnel d
    then resume_disconnect native (get_stored_token d.client) d.peer_id (start_disconnect d)
    else record (clear_ui (start_disconnect d)) { status_msg = text "Disconnected" }

-- `doSignOut(); setUser(null); setNewAccountId("");`
unfoldable pub forget_user : Desktop → Desktop
unfolding sign_out
forget_user d = record d { client = sign_out d.client; user = none; new_account_id = [] }

-- `handleSignOut`: the disconnect is started and not awaited, so the user is forgotten while it waits
-- for the tunnel to go down.
unfoldable pub handle_sign_out : Native → Desktop → Desktop
unfolding forget_user start_disconnect resume_disconnect get_stored_token handle_disconnect
handle_sign_out native d =
    if d.connected
    then (if has_tunnel d
        then resume_disconnect native (get_stored_token d.client) d.peer_id
            (forget_user (start_disconnect d))
        else forget_user (handle_disconnect native d))
    else forget_user d
