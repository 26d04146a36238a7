-- ===== src/Desktop/Screen/Honest.antt =====
-- What the dashboard says of the connection, whatever the handlers that wait have done.
use veritas_vpn.Base.{
  ◌≡◌, Bool, true, false, some, [], ◌∷◌, Text, text, is_some, arith, if◌then◌else◌,
}
use veritas_vpn.Desktop.Attempt.{Desktop}
use veritas_vpn.Desktop.Handlers.{is_wireguard}
use veritas_vpn.Desktop.View.{shows_form}
use veritas_vpn.Desktop.View as View
use veritas_vpn.Desktop.World.{World}
use veritas_vpn.Api.{User}
use veritas_vpn.Desktop.Screen.{
  Dashboard, Screen, form_screen, dashboard, render, render_dashboard, shows_new_id,
}

-- A tunnel is named exactly where the application is connected.
abbrev NamesTunnel : Desktop → Type 0
NamesTunnel d = is_wireguard d.tunnel_mode ≡ d.connected

abbrev is_one_character : Text → Bool
is_one_character [] = false
is_one_character (c ∷ []) = true
is_one_character (c ∷ d ∷ s) = false

-- What a dashboard says of the application.
pub record Tells (d : Desktop) (p : Dashboard) : Type 0 where
  pub user : is_some d.user ≡ true
  pub copy : p.copy ≡ (
      if d.connected
      then text "Your internet traffic is encrypted through our WireGuard node in Paraguay."
      else text "Route your traffic privately through our live node in Paraguay.")
  pub tunnel : p.tunnel ≡ (if d.connected then text "WireGuard" else text "WireGuard only")
  pub avatar : is_one_character p.avatar ≡ true

-- What a screen says, if it is a dashboard.
pub IsHonest : Desktop → Screen → Type 0
IsHonest d (form_screen f) = shows_form d ≡ true
IsHonest d (dashboard p) = Tells d p

render_user :
    (d : Desktop) (user : User)
    → d.user ≡ some user
    → shows_new_id d ≡ false
    → render d ≡ dashboard (render_dashboard user d)
unfolding render
render_user d user e old = ground arith
