-- ===== src/Desktop/Peers.antt =====
-- The peers that the desktop client makes and removes on the server, and what it shows of the tunnel:
-- clients/desktop/src/App.tsx, lines 172-305.
use veritas_vpn.Base.{
  ◌≡◌, ◌⊎◌, true, false, none, [], ◌∷◌, ◌++◌, List, Text, is_truthy, or_else, arith,
}
use veritas_vpn.Base.Net.{Request}
use veritas_vpn.Desktop.Auth.{Reply, get_stored_token}
use veritas_vpn.Desktop.Attempt.{
  Failure, Outcome, done, failed, Desktop, wireguard, no_tunnel, Attempt,
}
use veritas_vpn.Desktop.Connect.{
  KeyPair, ConnectResult, Native, renew_token, try_connect, start_attempt, delete_request,
  handle_connect, create_peer,
}
use veritas_vpn.Desktop.Handlers.{handle_disconnect, handle_sign_out}

abbrev pub attempt : Native → Desktop → Outcome (Unit {0}) × Attempt
attempt native d = try_connect native (start_attempt d)

-- The attempt after the refresh of the token.
unfoldable pub renewed : Desktop → Attempt
unfolding renew_token
renewed d = (renew_token (start_attempt d)).1

abbrev pub sent : Desktop → List Request
sent d = d.client.net.sent

module _ (native : Native) (d : Desktop) (idle : d.connecting ≡ false) where
  -- An attempt that fails after the server made a peer, at whatever later step, ends with the request
  -- that removes this peer, under the token that made it, and the client is not connecting any more.
  pub handle_connect_rolls_back :
      (e : Failure)
      → (attempt native d).0 ≡ failed e
      → is_truthy (attempt native d).1.created_peer_id ≡ true
      → (sent (handle_connect native d)
          ≡ sent (attempt native d).1.desktop
            ++ (delete_request (attempt native d).1.token (attempt native d).1.created_peer_id
                ∷ []))
        × ((handle_connect native d).connecting ≡ false)
        × ((handle_connect native d).connected ≡ d.connected)
  unfolding handle_connect
  handle_connect_rolls_back e h created = ground arith

  -- Once the server has made a peer for the keys of an attempt, the attempt ends in one of two ways:
  -- the client is connected with that peer, or the last request it sent removes the peer.
  pub handle_connect_leaks_nothing :
      (keys : KeyPair) (peer : Reply) (p : Text)
      → is_truthy (renewed d).token ≡ true
      → native.wireguard_available ≡ done true
      → native.generate_wg_keys ≡ done keys
      → (create_peer keys.public_key (renewed d)).0 ≡ done peer
      → or_else peer.peer_id [] ≡ p
      → is_truthy p ≡ true
      → (((handle_connect native d).connected ≡ true) × ((handle_connect native d).peer_id ≡ p))
        ⊎ (sent (handle_connect native d)
            ≡ sent (create_peer keys.public_key (renewed d)).1.desktop
              ++ (delete_request (renewed d).token p ∷ []))
  unfolding handle_connect renewed
  handle_connect_leaks_nothing keys peer p signed_in available made created named there =
      ground arith

  -- An attempt that succeeds shows the connection, remembers the peer that the server named and
  -- sends nothing more.
  pub handle_connect_connects :
      (attempt native d).0 ≡ done tt
      → ((handle_connect native d).connected ≡ true)
        × ((handle_connect native d).tunnel_mode ≡ wireguard)
        × ((handle_connect native d).peer_id ≡ (attempt native d).1.created_peer_id)
        × ((handle_connect native d).connecting ≡ false)
        × (sent (handle_connect native d) ≡ sent (attempt native d).1.desktop)
  unfolding handle_connect
  handle_connect_connects h = ground arith

-- Disconnecting ends with the client shown as not connected and without a peer, whatever the native
-- commands and the server answer.
pub handle_disconnect_clears :
    (native : Native) (d : Desktop)
    → ((handle_disconnect native d).connected ≡ false)
      × ((handle_disconnect native d).tunnel_mode ≡ no_tunnel)
      × ((handle_disconnect native d).peer_id ≡ [])
unfolding handle_disconnect
handle_disconnect_clears native d = ground arith

-- Where the tunnel does not come down, disconnecting forgets the peer and asks the server for
-- nothing: the peer stays on the server.
pub handle_disconnect_keeps_peer :
    (native : Native) (d : Desktop) (r : ConnectResult)
    → native.disconnect_wireguard ≡ done r
    → r.success ≡ false
    → is_truthy d.peer_id ≡ true
    → ((handle_disconnect native d).peer_id ≡ []) × (sent (handle_disconnect native d) ≡ sent d)
unfolding handle_disconnect
handle_disconnect_keeps_peer native d r h failed' there = ground arith

-- Signing out while connected sends what disconnecting alone sends: the token that removes the peer was read
-- before it was forgotten. Both leave the client not connected, the first one with nobody signed in and no
-- token stored.
pub handle_sign_out_sends :
    (native : Native) (d : Desktop)
    → d.connected ≡ true
    → (sent (handle_sign_out native d) ≡ sent (handle_disconnect native d))
      × ((handle_sign_out native d).connected ≡ false)
      × ((handle_disconnect native d).connected ≡ false)
      × ((handle_sign_out native d).user ≡ none)
      × (get_stored_token (handle_sign_out native d).client ≡ none)
unfolding handle_sign_out handle_disconnect
handle_sign_out_sends native d h = ground arith
