-- ===== src/Desktop/SignedOut.antt =====
-- Signing out, or connecting again, while a handler of the desktop client waits:
-- clients/desktop/src/App.tsx, lines 172-305, and auth.ts, lines 98-113.
use veritas_vpn.Base.{
  ℕ, ◌≡◌, Bool, true, false, not, ◌&&◌, Option, none, some, List, [], ◌∷◌, Text, arith,
}
use veritas_vpn.Base.Net.{Answer}
use veritas_vpn.Site.Session.Refresh.{no_storage}
use veritas_vpn.Desktop.Auth.{Reply}
use veritas_vpn.Desktop.Attempt.{Desktop, done}
use veritas_vpn.Desktop.Connect.{Native, ConnectResult}
use veritas_vpn.Desktop.View.{shows_form}
use veritas_vpn.Desktop.Async.{
  Task, refreshing, asking, making_keys, creating, bringing_up, rolling_back, tearing_down,
  dropping, resume,
}
use veritas_vpn.Base.Waiting.{task_at}
use veritas_vpn.Desktop.World.{
  World, Event, click_connect, click_disconnect, click_sign_out, status_timeout, form, go_on,
  happen, go_on_with,
}

-- Nobody is signed in, and nothing of a session is stored.
abbrev pub IsSignedOut : Desktop → Type 0
IsSignedOut d = (d.user ≡ none) × (d.client.storage ≡ no_storage)

resume-IsSignedOut :
    (native : Native) (answer : Answer Reply) (task : Task) (d : Desktop)
    → IsSignedOut d
    → IsSignedOut (resume native answer task d).0
unfolding resume
resume-IsSignedOut native answer refreshing d h = ground arith
resume-IsSignedOut native answer (asking token) d h = ground arith
resume-IsSignedOut native answer (making_keys token) d h = ground arith
resume-IsSignedOut native answer (creating token keys) d h = ground arith
resume-IsSignedOut native answer (bringing_up token peer) d h = ground arith
resume-IsSignedOut native answer (rolling_back e) d h = ground arith
resume-IsSignedOut native answer (tearing_down token peer_id) d h = ground arith
resume-IsSignedOut native answer dropping d h = ground arith

go_on-IsSignedOut :
    (native : Native) (answer : Answer Reply) (n : ℕ) (w : World) (t : Option Task)
    → IsSignedOut w.desktop
    → IsSignedOut (go_on_with native answer t n w).desktop
unfolding go_on_with
go_on-IsSignedOut native answer n w none h = h
go_on-IsSignedOut native answer n w (some task) h =
    ground (arith, resume-IsSignedOut native answer task w.desktop h)

abbrev pub is_form : Event → Bool
is_form (form e) = true
is_form _ = false

unfoldable pub happen_all : List Event → World → World
unfolding happen
happen_all [] w = w
happen_all (e ∷ es) w = happen_all es (happen e w)

-- No event is one of the account form.
abbrev pub no_form : List Event → Bool
no_form [] = true
no_form (e ∷ es) = not (is_form e) && no_form es

happen-IsSignedOut :
    (e : Event) (w : World)
    → is_form e ≡ false
    → IsSignedOut w.desktop
    → IsSignedOut (happen e w).desktop
unfolding happen
happen-IsSignedOut click_connect w f h = ground arith
happen-IsSignedOut click_disconnect w f h = ground arith
happen-IsSignedOut click_sign_out w f h = ground arith
happen-IsSignedOut status_timeout w f h = ground arith
happen-IsSignedOut (form e) w f h = ground arith
happen-IsSignedOut (go_on n native answer) w f h =
    go_on-IsSignedOut native answer n w (task_at n w.tasks) h

stays-IsSignedOut :
    (es : List Event) (w : World)
    → no_form es ≡ true
    → IsSignedOut w.desktop
    → IsSignedOut (happen_all es w).desktop
unfolding happen_all
stays-IsSignedOut [] w f h = h
stays-IsSignedOut (e ∷ es) w f h =
    stays-IsSignedOut es (happen e w) (ground arith) (happen-IsSignedOut e w (ground arith) h)

-- A sign-out is final, whatever waits at that moment: the refresh of a token that is on its way, the
-- attempt to connect, the disconnect. Nothing that happens after it, but for the account form, brings
-- the user or anything of the session back.
pub sign_out_lasts :
    (w : World) (es : List Event)
    → shows_form w.desktop ≡ false
    → no_form es ≡ true
    → IsSignedOut (happen_all es (happen click_sign_out w)).desktop
unfolding happen
sign_out_lasts w es shown f = stays-IsSignedOut es (happen click_sign_out w) f (ground arith)

-- A sign-out does not stop an attempt to connect that waits for the tunnel: once the tunnel is up the
-- application is connected with nobody signed in, and shows the account form, so that the click that
-- would disconnect does nothing.
pub sign_out_while_connecting :
    (d : Desktop) (tasks : List Task) (native : Native) (answer : Answer Reply) (token : Text)
    (peer : Reply) (result : ConnectResult)
    → shows_form d ≡ false
    → d.connected ≡ false
    → native.connect_wireguard ≡ done result
    → result.success ≡ true
    → let w : World = record { desktop = d; tasks = bringing_up token peer ∷ tasks } in
      let w' = happen (go_on 0 native answer) (happen click_sign_out w) in
      (w'.desktop.connected ≡ true)
      × (w'.desktop.user ≡ none)
      × (shows_form w'.desktop ≡ true)
      × (happen click_disconnect w' ≡ w')
unfolding happen
sign_out_while_connecting d tasks native answer token peer result shown off up good = ground arith

-- A disconnect that waits for the removal of its peer clears the application once more when it goes on:
-- where the user has connected again in the meantime the tunnel is up, and the application shows that it
-- is not connected, without the id of the new peer.
pub disconnect_hides_tunnel :
    (d : Desktop) (native : Native) (answer : Answer Reply) (token : Text) (peer : Reply)
    (result : ConnectResult)
    → native.connect_wireguard ≡ done result
    → result.success ≡ true
    → let w : World = record { desktop = d; tasks = bringing_up token peer ∷ dropping ∷ [] } in
      let up = happen (go_on 0 native answer) w in
      let w' = happen (go_on 0 native answer) up in
      (up.desktop.connected ≡ true)
      × (w'.desktop.connected ≡ false)
      × (w'.desktop.peer_id ≡ [])
      × (w'.desktop.configs ≡ d.configs)
      × (w'.tasks ≡ [])
unfolding happen
disconnect_hides_tunnel d native answer token peer result up good = ground arith
