-- ===== src/Desktop/Alone.antt =====
-- A handler of the desktop client with nothing in between: clients/desktop/src/App.tsx, lines 172-296.
use veritas_vpn.Base.{
  ℕ, suc, ◌≡◌, Bool, true, false, Option, none, some, [], ◌∷◌, arith, ◌∙◌, ap, if◌then◌else◌, Text,
  text, is_truthy, or_null, or_else, or_text,
}
use veritas_vpn.Base.Waiting.{run_on}
use veritas_vpn.Base.Net.{Answer, rejected, receive, send, Net}
use veritas_vpn.Desktop.Auth.{
  Reply, Client, get_stored_token, auth_request, auth_api_call, finish_refresh, refresh_session,
}
use veritas_vpn.Desktop.Attempt.{
  raised, Outcome, done, failed, Desktop, Attempt, M, ◌>>=◌, ◌>>◌, then_run, require, from,
}
use veritas_vpn.Desktop.Connect.{
  KeyPair, Native, handle_connect, create_peer, bring_up, config_of, show_connected, settled,
  token_is_there, try_connect, read_peer, noted, create_request, start_attempt,
}
use veritas_vpn.Desktop.Handlers.{handle_disconnect}
use veritas_vpn.Desktop.Async.{
  Task, refreshing, asking, creating, rolling_back, dropping, begin_connect, begin_disconnect,
  resume, have_token, have_available, have_keys, have_peer, fail_connect, send_from,
}

-- The answer to the request that a task waits for; a task that waits for a native command takes none.
abbrev pub answer_to : Task → Net Reply → Answer Reply × Net Reply
answer_to refreshing net = receive net
answer_to (creating token keys) net = receive net
answer_to (rolling_back e) net = receive net
answer_to dropping net = receive net
answer_to task net = (rejected [], net)

abbrev pub resumed : Native → Task → Desktop → Desktop × Option Task
resumed native task d =
    let (answer, net) = answer_to task d.client.net in
    resume native answer task (record d { client = record client { net = net } })
  where
    open d use {client}

-- With nothing in between, a disconnect comes to its end within two steps, and has done then what the
-- handler in one piece does.
pub run_on-disconnect :
    (native : Native) (d : Desktop)
    → run_on (resumed native) 2 (begin_disconnect d) ≡ (handle_disconnect native d, none)
unfolding begin_disconnect handle_disconnect resume receive
run_on-disconnect native d = ground arith

-- The end of `handleConnect`.
abbrev ended : Outcome (Unit {0}) × Attempt → Desktop
ended (r, a) = record (settled r a) { connecting = false }

-- The `try` from the answer to each step on.
abbrev after_peer : Native → KeyPair → Reply → M (Unit {0})
after_peer native keys peer = do
  result ← bring_up native.connect_wireguard (config_of keys peer)
  require result.success (or_text result.message (text "WireGuard connection failed"))
  show_connected peer

abbrev after_keys : Native → KeyPair → M (Unit {0})
after_keys native keys = do peer ← create_peer keys.public_key; after_peer native keys peer

abbrev after_available : Native → M (Unit {0})
after_available native = do keys ← from native.generate_wg_keys; after_keys native keys

abbrev require_available : Native → Bool → M (Unit {0})
require_available native available = do
  require available
      (text "WireGuard is unavailable in this build. No proxy fallback was activated.")
  after_available native

abbrev after_token : Native → M (Unit {0})
after_token native = do
  available ← from native.wireguard_available
  require_available native available

abbrev refresh_with : Text → Client → Bool × Client
refresh_with rt d =
    let (result, c) =
      auth_api_call (text "/api/v1/auth/refresh") ((text "refresh_token", rt) ∷ []) d in
    finish_refresh result c

abbrev attempt_of : Desktop → Text → Text → Attempt
attempt_of d token peer_id = record { desktop = d; token = token; created_peer_id = peer_id }

-- The fuel that is left over does not matter.
module _ (n : ℕ) (native : Native) where
  run_on-result :
      (d : Desktop) (token : Text) (keys : KeyPair) (peer : Reply)
      → run_on (resumed native) (suc (suc n)) (have_peer token keys (done peer) d)
        ≡ (ended (after_peer native keys peer (attempt_of d token (or_else peer.peer_id []))), none)
  unfolding have_peer bring_up show_connected settled resume receive
  run_on-result d token keys peer = ground arith

  run_on-peer :
      (d : Desktop) (token : Text) (keys : KeyPair) (r : Outcome Reply)
      → run_on (resumed native) (suc (suc n)) (have_peer token keys r d) ≡ (
        ended (
            then_run
              (noted r (attempt_of d token [])).0
              (after_peer native keys)
              (noted r (attempt_of d token [])).1),
        none,
      )
  unfolding have_peer settled noted
  run_on-peer d token keys (failed e) = ground arith
  run_on-peer d token keys (done peer) = run_on-result d token keys peer

  run_on-keys :
      (d : Desktop) (token : Text) (r : Outcome KeyPair)
      → run_on (resumed native) (suc (suc (suc n))) (have_keys token r d)
        ≡ (ended (then_run r (after_keys native) (attempt_of d token [])), none)
  unfolding have_keys settled create_peer resume receive
  run_on-keys d token (failed e) = ground arith
  run_on-keys d token (done keys) =
      let waiting = receive (send (create_request token keys.public_key) d.client.net) in
      run_on-peer (record d { client = record client { net = waiting.1 } }) token keys
        (read_peer waiting.0)
    where
      open d use {client}

  run_on-available :
      (d : Desktop) (token : Text) (r : Outcome Bool)
      → run_on (resumed native) (suc (suc (suc (suc n)))) (have_available token r d)
        ≡ (ended (then_run r (require_available native) (attempt_of d token [])), none)
  unfolding have_available settled resume
  run_on-available d token (failed e) = ground arith
  run_on-available d token (done true) = run_on-keys d token native.generate_wg_keys
  run_on-available d token (done false) = ground arith

  run_on-token :
      (d : Desktop) (token : Text) (there : Bool)
      → run_on (resumed native) (suc (suc (suc (suc (suc n))))) (
          if there
          then (d, some (asking token))
          else fail_connect (raised (text "Not signed in")) [] [] d)
        ≡ (
          ended (
              (require there (text "Not signed in") >> after_token native) (attempt_of d token [])),
          none,
        )
  unfolding settled resume fail_connect
  run_on-token d token true = run_on-available d token native.wireguard_available
  run_on-token d token false = ground arith

-- The attempt after `await refreshSession()`.
abbrev with_client : Client → Desktop → Attempt
with_client c d = attempt_of (record d { client = c }) (or_else (get_stored_token c) []) []

run_on-refresh :
    (native : Native) (d : Desktop) (rt : Option Text)
    → run_on (resumed native) 6 (elim rt as (λ x. Desktop × Option Task) [
      | none ↦ have_token d
      | some rt ↦ (
        send_from (auth_request (text "/api/v1/auth/refresh") ((text "refresh_token", rt) ∷ [])) d,
        some refreshing,
      )
    ])
      ≡ (
        ended (
            (token_is_there >> after_token native) (
              with_client
                (elim rt as (λ x. Bool × Client) [
                  | none ↦ (false, d.client)
                  | some rt ↦ refresh_with rt d.client
                ]).1
                d)),
        none,
      )
unfolding have_token token_is_there get_stored_token auth_api_call resume receive
run_on-refresh native d none =
    let token = or_else (get_stored_token d.client) [] in
    run_on-token 1 native d token (is_truthy token)
run_on-refresh native d (some rt) =
    let c = (refresh_with rt d.client).1 in
    let token = or_else (get_stored_token c) [] in
    run_on-token 0 native (record d { client = c }) token (is_truthy token)

if_false : (b : Bool) (x y : Desktop) → b ≡ false → y ≡ (if b then x else y)
if_false b x y h = ground arith

-- With nothing in between, an attempt to connect comes to its end within six steps, and has done then what
-- the handler in one piece does.
pub run_on-connect :
    (native : Native) (d : Desktop)
    → d.connecting ≡ false
    → run_on (resumed native) 6 (begin_connect d) ≡ (handle_connect native d, none)
unfolding begin_connect handle_connect refresh_session
run_on-connect native d idle =
    run_on-refresh native (record d { status_msg = []; connecting = true })
      (or_null d.client.storage.refresh_token)
    ∙ ap (λ x. (x, none))
        (if_false d.connecting d (ended (try_connect native (start_attempt d))) idle)
