-- ===== src/Desktop/Tests.antt =====
-- The desktop client at concrete states.
use veritas_vpn.Base.{◌≡◌, ◌⊎◌, refl, true, false, none, [], ◌∷◌, ◌++◌, text, text_of}
use veritas_vpn.Desktop.Auth.{get_stored_token}
use veritas_vpn.Desktop.Attempt.{Desktop, signin, signup, account_id}
use veritas_vpn.Desktop.Connect.{handle_connect, delete_request, create_peer}
use veritas_vpn.Desktop.Handlers.{handle_disconnect, handle_sign_out}
use veritas_vpn.Desktop.Peers.{renewed, sent, handle_connect_leaks_nothing, handle_sign_out_sends}
use veritas_vpn.Desktop.View.{
  start, click_connect, click_sign_out, click_tab, handle, here, next, shows_form, click_continue,
}
use veritas_vpn.Desktop.Runs.{IsSettled, Run-IsSettled, handle_keeps_new_account_id}
use veritas_vpn.Desktop.Samples.{new_client, connected_desk, peer, desk, pair, working, failing}

-- A connection, then a disconnection, in three requests and one more for the peer.
connects_and_disconnects :
    ((handle_connect working desk).connected ≡ true)
    × ((handle_connect working desk).peer_id ≡ text "p7")
    × ((handle_connect working desk).status_msg ≡ text "Connected via WireGuard")
    × ((handle_disconnect working (handle_connect working desk)).status_msg ≡ text "Disconnected")
unfolding handle_connect handle_disconnect text text_of
connects_and_disconnects = (refl, refl, refl, refl)

-- The command that brings the tunnel up rejects.
bring_up_rejected :
    ((handle_connect failing desk).connected ≡ false)
    × ((handle_connect failing desk).status_msg ≡ text "Connection failed")
unfolding handle_connect text text_of
bring_up_rejected = (refl, refl)

handle_connect_leaks_nothing_example :
    (((handle_connect failing desk).connected ≡ true)
      × ((handle_connect failing desk).peer_id ≡ text "p7"))
    ⊎ (sent (handle_connect failing desk)
        ≡ sent (create_peer (text "K") (renewed desk)).1.desktop
          ++ (delete_request (renewed desk).token (text "p7") ∷ []))
unfolding create_peer renewed text text_of
handle_connect_leaks_nothing_example =
    handle_connect_leaks_nothing failing desk refl pair peer (text "p7") refl refl refl refl refl
      refl

handle_sign_out_sends_example :
    (sent (handle_sign_out working connected_desk)
      ≡ sent (handle_disconnect working connected_desk))
    × ((handle_sign_out working connected_desk).connected ≡ false)
    × ((handle_disconnect working connected_desk).connected ≡ false)
    × ((handle_sign_out working connected_desk).user ≡ none)
    × (get_stored_token (handle_sign_out working connected_desk).client ≡ none)
handle_sign_out_sends_example = handle_sign_out_sends working connected_desk refl

Run-IsSettled_example :
    IsSettled (handle (click_sign_out failing) (handle (click_connect working) (start new_client)))
Run-IsSettled_example =
    Run-IsSettled new_client (refl, refl)
      (next (click_sign_out failing) (next (click_connect working) here))

abbrev registered : Desktop
registered = record desk { mode = signup; method = account_id; new_account_id = text "a1" }

handle_keeps_new_account_id_example :
    ((handle (click_tab signin) registered).new_account_id ≡ text "a1")
    × (shows_form (handle (click_tab signin) registered) ≡ true)
    × (shows_form (handle click_continue registered) ≡ false)
unfolding shows_form text
handle_keeps_new_account_id_example =
    handle_keeps_new_account_id (click_tab signin) registered refl refl refl refl
