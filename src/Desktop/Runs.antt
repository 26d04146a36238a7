-- ===== src/Desktop/Runs.antt =====
-- What every run of the desktop client keeps true: clients/desktop/src/App.tsx.
use veritas_vpn.Base.{Bool, ◌≡◌, ◌⊎◌, true, false, [], arith, is_truthy, is_some}
use veritas_vpn.Site.Session.Invariant.{IsWhole}
use veritas_vpn.Desktop.Auth.{
  Client, refresh_session, get_stored_user, sign_in, sign_up, sign_in_with_account_id,
  register_anonymous, sign_out,
}
use veritas_vpn.Desktop.Attempt.{Desktop, wireguard}
use veritas_vpn.Desktop.Connect.{Native, handle_connect}
use veritas_vpn.Desktop.Handlers.{
  is_wireguard, switch_mode, switch_method, handle_auth, handle_disconnect, handle_sign_out,
}
use veritas_vpn.Desktop.View.{
  start, Event, submit, click_switch, click_continue, status_timeout, click_tab, type_email,
  type_password, type_account_id, click_connect, click_disconnect, click_sign_out, handle, Run,
  here, next, shows_form, shows_inputs,
}

-- Between two handlers.
pub record IsSettled (d : Desktop) : Type 0 where
  pub whole : IsWhole d.client.storage
  pub connected_has_user : d.connected ≡ true → is_some d.user ≡ true
  pub tunnel : is_wireguard d.tunnel_mode ≡ d.connected
  pub peer_gone : d.connected ≡ false → d.peer_id ≡ []
  pub user_is_stored : is_some d.user ≡ true → is_some d.client.storage.user ≡ true
  pub not_connecting : d.connecting ≡ false
  pub not_loading : d.loading ≡ false

submit-IsSettled : (d : Desktop) → IsSettled d → IsSettled (handle_auth d)
unfolding handle_auth sign_in sign_up sign_in_with_account_id register_anonymous
submit-IsSettled d h = ground arith

refresh_session-IsWhole :
    (c : Client)
    → IsWhole c.storage
    → IsWhole (refresh_session c).1.storage
      × (is_some (refresh_session c).1.storage.user ≡ is_some c.storage.user)
unfolding refresh_session
refresh_session-IsWhole c h = ground arith

-- Only the refresh of the token changes what is stored.
handle_connect-storage :
    (native : Native) (d : Desktop)
    → d.connecting ≡ false
    → (handle_connect native d).client.storage ≡ (refresh_session d.client).1.storage
unfolding handle_connect
handle_connect-storage native d idle = ground arith

-- The rest of the application: it is connected or as it was.
handle_connect-shown :
    (native : Native) (d : Desktop)
    → d.connecting ≡ false
    → ((handle_connect native d).connected ≡ true
        × (handle_connect native d).tunnel_mode ≡ wireguard)
      ⊎ ((handle_connect native d).connected ≡ d.connected
          × ((handle_connect native d).tunnel_mode ≡ d.tunnel_mode
              × (handle_connect native d).peer_id ≡ d.peer_id))
unfolding handle_connect
handle_connect-shown native d idle = ground arith

handle_connect-kept :
    (native : Native) (d : Desktop)
    → d.connecting ≡ false
    → ((handle_connect native d).user ≡ d.user)
      × ((handle_connect native d).loading ≡ d.loading)
      × ((handle_connect native d).connecting ≡ false)
unfolding handle_connect
handle_connect-kept native d idle = ground arith

connect-IsSettled :
    (native : Native) (d : Desktop)
    → IsSettled d
    → is_some d.user ≡ true
    → IsSettled (handle_connect native d)
connect-IsSettled native d h there = ground (
  arith,
  refresh_session-IsWhole d.client h.whole,
  handle_connect-storage native d h.not_connecting,
  handle_connect-shown native d h.not_connecting,
  handle_connect-kept native d h.not_connecting,
)

disconnect-IsSettled :
    (native : Native) (d : Desktop) → IsSettled d → IsSettled (handle_disconnect native d)
unfolding handle_disconnect
disconnect-IsSettled native d h = ground arith

sign_out-IsSettled :
    (native : Native) (d : Desktop) → IsSettled d → IsSettled (handle_sign_out native d)
unfolding handle_sign_out handle_disconnect sign_out
sign_out-IsSettled native d h = ground arith

handle-IsSettled : (e : Event) (d : Desktop) → IsSettled d → IsSettled (handle e d)
unfolding handle
handle-IsSettled submit d h = ground (arith, submit-IsSettled d h)
handle-IsSettled click_switch d h = unfold switch_method in ground arith
handle-IsSettled click_continue d h = ground arith
handle-IsSettled status_timeout d h = ground arith
handle-IsSettled (click_tab m) d h = unfold switch_mode in ground arith
handle-IsSettled (type_email value) d h = ground arith
handle-IsSettled (type_password value) d h = ground arith
handle-IsSettled (type_account_id value) d h = ground arith
handle-IsSettled (click_connect native) d h =
    unfold shows_form in ground (arith, connect-IsSettled native d h)
handle-IsSettled (click_disconnect native) d h = ground (arith, disconnect-IsSettled native d h)
handle-IsSettled (click_sign_out native) d h = ground (arith, sign_out-IsSettled native d h)

-- Where the handlers do not overlap, but each ends before the next event (a sign-out may leave its disconnect
-- waiting): on every run of the application from its start with a stored session that is whole, it is connected
-- only for a signed-in user, whose session is stored; it shows a tunnel exactly where it is connected
-- and a peer only there; user and tokens are stored together or not at all; and between two handlers
-- it is neither connecting nor loading.
pub Run-IsSettled : (c : Client) {d : Desktop} → IsWhole c.storage → Run (start c) d → IsSettled d
unfolding start get_stored_user
Run-IsSettled c h here = ground arith
Run-IsSettled c h (next {d' = d} e r) = handle-IsSettled e d (Run-IsSettled c h r)

abbrev pub is_continue : Event → Bool
is_continue click_continue = true
is_continue _ = false

-- A new account ID stays on show until the user confirms it: every other control leaves it and the view
-- as they are, and the confirmation leads a signed-in user to the dashboard.
pub handle_keeps_new_account_id :
    (e : Event) (d : Desktop)
    → shows_form d ≡ true
    → is_truthy d.new_account_id ≡ true
    → is_some d.user ≡ true
    → is_continue e ≡ false
    → ((handle e d).new_account_id ≡ d.new_account_id)
      × (shows_form (handle e d) ≡ true)
      × (shows_form (handle click_continue d) ≡ false)
unfolding handle shows_form shows_inputs
handle_keeps_new_account_id e d form id_there user_there other = ground arith
