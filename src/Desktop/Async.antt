-- ===== src/Desktop/Async.antt =====
-- clients/desktop/src/App.tsx, lines 172-305: `handleConnect`, `handleDisconnect` and `handleSignOut` as
-- they run, a step from one `await` to the next, so that any other handler may run between two steps.
-- A fetch and the reading of its body are one `await`. The account form's submission is one step.
use veritas_vpn.Base.{
  Bool, true, false, ◌&&◌, Option, none, some, [], ◌∷◌, ◌++◌, Text, text, is_truthy, or_null,
  or_text, or_else, if◌then◌else◌,
}
use veritas_vpn.Base.Net.{Request, Answer, send}
use veritas_vpn.Desktop.Auth.{Reply, auth_request, read_answer, finish_refresh, get_stored_token}
use veritas_vpn.Desktop.Attempt.{Failure, raised, Outcome, done, failed, wireguard, Desktop}
use veritas_vpn.Desktop.Connect.{
  KeyPair, ConnectResult, Native, create_request, delete_request, read_peer, config_of,
  failure_text,
}
use veritas_vpn.Desktop.Handlers.{has_tunnel, start_disconnect, clear_ui, forget_user}

-- A handler that waits: what it waits for, with the local variables that are read after it.
pub data Task : Type 0 where
  refreshing : Task
  asking : (token : Text) → Task
  making_keys : (token : Text) → Task
  creating : (token : Text) (keys : KeyPair) → Task
  bringing_up : (token : Text) (peer : Reply) → Task
  rolling_back : Failure → Task
  tearing_down : (token : Option Text) (peer_id : Text) → Task
  dropping : Task

abbrev Step : Type 0
Step = Desktop × Option Task

unfoldable pub send_from : Request → Desktop → Desktop
unfolding send
send_from r d = record d { client = record client { net = send r client.net } }
  where
    open d use {client}

-- The end of the `catch`, with the `finally`.
unfoldable pub give_up : Failure → Desktop → Desktop
give_up e d = record d {
  status_msg = failure_text e (text "Connection failed");
  connecting = false;
}

-- The `catch`, with the token and the id of the peer that was created.
unfoldable pub fail_connect : Failure → Text → Text → Desktop → Step
unfolding give_up send_from
fail_connect e token peer_id d =
    if is_truthy peer_id && is_truthy token
    then (send_from (delete_request token peer_id) d, some (rolling_back e))
    else (give_up e d, none)

-- After `await refreshSession()`.
unfoldable pub have_token : Desktop → Step
unfolding get_stored_token fail_connect
have_token d =
    let token = or_else (get_stored_token d.client) [] in
    if is_truthy token
    then (d, some (asking token))
    else fail_connect (raised (text "Not signed in")) [] [] d

-- A click on `Connect now`; with no token to refresh nothing is waited for.
unfoldable pub begin_connect : Desktop → Step
unfolding have_token send_from
begin_connect d =
    let d' = record d { status_msg = []; connecting = true } in
    elim (or_null d.client.storage.refresh_token) [
      | none ↦ have_token d'
      | some rt ↦ (
        send_from (auth_request (text "/api/v1/auth/refresh") ((text "refresh_token", rt) ∷ [])) d',
        some refreshing,
      )
    ]

unfoldable pub show_peer : Reply → Desktop → Desktop
show_peer peer d = record d {
  connected = true;
  tunnel_mode = wireguard;
  peer_id = or_else peer.peer_id [];
  status_msg = text "Connected via WireGuard";
  connecting = false;
}

-- A click on `Disconnect`, with the token, the mode and the peer of that moment.
unfoldable pub begin_disconnect : Desktop → Step
unfolding start_disconnect clear_ui get_stored_token
begin_disconnect d =
    if has_tunnel d
    then (start_disconnect d, some (tearing_down (get_stored_token d.client) d.peer_id))
    else (record (clear_ui (start_disconnect d)) { status_msg = text "Disconnected" }, none)

unfoldable pub begin_sign_out : Desktop → Step
unfolding begin_disconnect forget_user
begin_sign_out d =
    let (d', task) = begin_disconnect d in
    if d.connected then (forget_user d', task) else (forget_user d, none)

-- What follows each native command and the request for a peer.
unfoldable pub have_result : Text → Reply → Outcome ConnectResult → Desktop → Step
unfolding fail_connect show_peer
have_result token peer (failed e) d = fail_connect e token (or_else peer.peer_id []) d
have_result token peer (done result) d =
    if result.success
    then (show_peer peer d, none)
    else fail_connect (raised (or_text result.message (text "WireGuard connection failed"))) token
        (or_else peer.peer_id []) d

unfoldable pub have_peer : Text → KeyPair → Outcome Reply → Desktop → Step
unfolding fail_connect config_of
have_peer token keys (failed e) d = fail_connect e token [] d
have_peer token keys (done peer) d =
    (record d { configs = d.configs ++ (config_of keys peer ∷ []) }, some (bringing_up token peer))

unfoldable pub have_keys : Text → Outcome KeyPair → Desktop → Step
unfolding fail_connect send_from
have_keys token (failed e) d = fail_connect e token [] d
have_keys token (done keys) d =
    (send_from (create_request token keys.public_key) d, some (creating token keys))

unfoldable pub have_available : Text → Outcome Bool → Desktop → Step
unfolding fail_connect
have_available token (failed e) d = fail_connect e token [] d
have_available token (done true) d = (d, some (making_keys token))
have_available token (done false) d =
    fail_connect
      (raised (text "WireGuard is unavailable in this build. No proxy fallback was activated."))
      token [] d

unfoldable pub have_torn_down : Option Text → Text → Outcome ConnectResult → Desktop → Step
unfolding clear_ui send_from
have_torn_down token peer_id (failed e) d = (
  record (clear_ui d) {
    status_msg = failure_text e (text "Disconnect failed — approve the macOS admin prompt");
  },
  none,
)
have_torn_down token peer_id (done result) d =
    if result.success
    then (if is_truthy (or_else token []) && is_truthy peer_id
        then (send_from (delete_request (or_else token []) peer_id) (clear_ui d), some dropping)
        else (record (clear_ui d) { status_msg = text "Disconnected" }, none))
    else (
      record (clear_ui d) {
        status_msg = or_text result.message (
            text
              "Disconnect incomplete — approve the admin prompt, or run the teardown script from your app config directory");
      },
      none,
    )

-- What a task does when the promise that it waits for is settled: a native command by its entry of
-- `native`, a request by `answer`.
unfoldable pub resume : Native → Answer Reply → Task → Desktop → Step
unfolding finish_refresh read_answer have_token have_available have_keys read_peer have_peer
    have_result give_up have_torn_down clear_ui
resume native answer refreshing d =
    have_token (record d { client = (finish_refresh (read_answer answer) d.client).1 })
resume native answer (asking token) d = have_available token native.wireguard_available d
resume native answer (making_keys token) d = have_keys token native.generate_wg_keys d
resume native answer (creating token keys) d = have_peer token keys (read_peer answer) d
resume native answer (bringing_up token peer) d = have_result token peer native.connect_wireguard d
resume native answer (rolling_back e) d = (give_up e d, none)
resume native answer (tearing_down token peer_id) d =
    have_torn_down token peer_id native.disconnect_wireguard d
resume native answer dropping d = (record (clear_ui d) { status_msg = text "Disconnected" }, none)
