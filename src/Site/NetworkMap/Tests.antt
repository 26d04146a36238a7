-- ===== src/Site/NetworkMap/Tests.antt =====
-- The map at the places of the network.
use veritas_vpn.Base.{◌⊎◌, ◌≡◌, refl, [], ◌∷◌, map, text, arith}
use veritas_vpn.Base.Int.{pos, negsuc, ◌+ℤ◌, ◌-ℤ◌, ◌≤ℤ◌}
use veritas_vpn.Site.NetworkMap.{
  project, label_at, units, marker_of, live_at, network_locations, aria_label, live_of,
}
use veritas_vpn.Site.NetworkMap.Laws.{IsOnEarth, label_fits}

asuncion :
    map marker_of network_locations
    ≡ live_at
        (text "py-asu")
        (text "340.0")
        (text "320.3")
        (text "348.0")
        (text "290.3")
        (text "354.0")
        (text "304.3")
        (text "Paraguay")
        (text "316.3")
        (text "Asunción metro · live")
      ∷ []
unfolding marker_of text
asuncion = refl

one_location :
    aria_label (live_of network_locations)
    ≡ text "World map showing 1 live VeritasVPN location: Paraguay"
unfolding aria_label live_of text
one_location = refl

paraguay-IsOnEarth : IsOnEarth (negsuc 252) (negsuc 575)
paraguay-IsOnEarth = omega arith

label_fits_example :
    let p = project (negsuc 252) (negsuc 575) 1000 500 in
    let label = label_at p in
    (pos 0 ≤ℤ p.x)
    × (p.x ≤ℤ units 1000)
    × (pos 0 ≤ℤ p.y)
    × (p.y ≤ℤ units 500)
    × (pos 0 ≤ℤ label.x -ℤ units 6)
    × (label.x -ℤ units 6 +ℤ units 118 ≤ℤ units 1000)
    × (pos 0 ≤ℤ label.y -ℤ units 14)
    × ((label.y -ℤ units 14 +ℤ units 32 ≤ℤ units 500) ⊎ (negsuc 252 ≤ℤ negsuc 892))
label_fits_example = label_fits (negsuc 252) (negsuc 575) paraguay-IsOnEarth
