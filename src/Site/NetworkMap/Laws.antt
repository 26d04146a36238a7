-- ===== src/Site/NetworkMap/Laws.antt =====
-- Where website/js/network-map.js draws the places of the network, and what its label says.
use veritas_vpn.Base.{
  suc, ◌⊎◌, ◌≡◌, refl, sym, ◌∙◌, ap, Option, some, List, [], ◌∷◌, ◌++◌, map, Text, text, length,
  ◌==◌, if◌then◌else◌, arith,
}
use veritas_vpn.Base.Int.{ℤ, pos, negsuc, pos_part, ◌+ℤ◌, ◌-ℤ◌, ◌≤ℤ◌}
use veritas_vpn.Base.Decimal.{decimal, point_injective}
use veritas_vpn.Site.NetworkMap.{
  NetworkLocation, project, units, label_at, tenths, to_fixed, Marker, soon_at, live_at, marker_of,
  live_marker, live_of, join_names, aria_label, MapView, Mount, mount_network_map,
}

-- A latitude and a longitude.
pub record IsOnEarth (lat lng : ℤ) : Type 0 where
  pub south : negsuc 899 ≤ℤ lat
  pub north : lat ≤ℤ pos 900
  pub west : negsuc 1799 ≤ℤ lng
  pub east : lng ≤ℤ pos 1800

-- For every place on the Earth, given in tenths of a degree: the centre of its marker lies within the view box,
-- and so does the box of its label, but that the label of a place south of 89.2°S may reach over the lower
-- edge.
pub label_fits :
    (lat lng : ℤ)
    → IsOnEarth lat lng
    → let p = project lat lng 1000 500 in
      let label = label_at p in
      (pos 0 ≤ℤ p.x)
      × (p.x ≤ℤ units 1000)
      × (pos 0 ≤ℤ p.y)
      × (p.y ≤ℤ units 500)
      × (pos 0 ≤ℤ label.x -ℤ units 6)
      × (label.x -ℤ units 6 +ℤ units 118 ≤ℤ units 1000)
      × (pos 0 ≤ℤ label.y -ℤ units 14)
      × ((label.y -ℤ units 14 +ℤ units 32 ≤ℤ units 500) ⊎ (lat ≤ℤ negsuc 892))
unfolding project label_at
label_fits lat lng h = ground arith

-- The digits of a position that is not negative tell the tenth that is nearest.
fixed_tenths :
    (v w : ℤ)
    → pos 0 ≤ℤ v
    → pos 0 ≤ℤ w
    → to_fixed v ≡ to_fixed w
    → tenths (pos_part v) ≡ tenths (pos_part w)
unfolding to_fixed
fixed_tenths (pos v) (pos w) h k e = point_injective (tenths v) (tenths w) e
fixed_tenths (pos v) (negsuc w) h k e = absurd (omega arith)
fixed_tenths (negsuc v) w h k e = absurd (omega arith)

x_apart :
    (lat lng lat' lng' : ℤ)
    → IsOnEarth lat lng
    → IsOnEarth lat' lng'
    → tenths (pos_part (project lat lng 1000 500).x)
      ≡ tenths (pos_part (project lat' lng' 1000 500).x)
    → lng ≡ lng'
unfolding tenths project
x_apart lat lng lat' lng' h k e = ground arith

y_apart :
    (lat lng lat' lng' : ℤ)
    → IsOnEarth lat lng
    → IsOnEarth lat' lng'
    → tenths (pos_part (project lat lng 1000 500).y)
      ≡ tenths (pos_part (project lat' lng' 1000 500).y)
    → lat ≡ lat'
unfolding tenths project
y_apart lat lng lat' lng' h k e = ground arith

-- The centre of a marker, as it is written.
abbrev pub centre : Marker → Text × Text
centre (soon_at x y) = (x, y)
centre (live_at id cx cy box_x box_y label_x label_y name sub_y sub) = (cx, cy)

centre-marker_of :
    (l : NetworkLocation)
    → centre (marker_of l)
      ≡ (to_fixed (project l.lat l.lng 1000 500).x, to_fixed (project l.lat l.lng 1000 500).y)
unfolding marker_of live_marker
centre-marker_of l = ground arith

project_within :
    (lat lng : ℤ)
    → IsOnEarth lat lng
    → (pos 0 ≤ℤ (project lat lng 1000 500).x) × (pos 0 ≤ℤ (project lat lng 1000 500).y)
unfolding project
project_within lat lng h = ground arith

-- Two places on the Earth whose markers have the same centre, as it is written with one digit after the
-- point, are the same place: a tenth of a degree is seen on the map.
pub drawn_apart :
    (l m : NetworkLocation)
    → IsOnEarth l.lat l.lng
    → IsOnEarth m.lat m.lng
    → centre (marker_of l) ≡ centre (marker_of m)
    → (l.lat ≡ m.lat) × (l.lng ≡ m.lng)
drawn_apart l m h k e =
    let p = project l.lat l.lng 1000 500 in
    let q = project m.lat m.lng 1000 500 in
    let same : (to_fixed p.x ≡ to_fixed q.x) × (to_fixed p.y ≡ to_fixed q.y) =
      ground (arith, centre-marker_of l, centre-marker_of m) in
    let (px, py) = project_within l.lat l.lng h in
    let (qx, qy) = project_within m.lat m.lng k in
    (
      y_apart l.lat l.lng m.lat m.lng h k (fixed_tenths p.y q.y py qy same.1),
      x_apart l.lat l.lng m.lat m.lng h k (fixed_tenths p.x q.x px qx same.0),
    )

abbrev name_of : NetworkLocation → Text
name_of l = l.name

-- The names that are written beside the live markers.
abbrev pub live_names : List Marker → List Text
live_names [] = []
live_names (soon_at x y ∷ ms) = live_names ms
live_names (live_at id cx cy box_x box_y label_x label_y name sub_y sub ∷ ms) = name ∷ live_names ms

-- What the label says of so many names.
abbrev pub told : List Text → Text
told names =
    text "World map showing "
    ++ (decimal (length names)
        ++ (text " live VeritasVPN location"
            ++ ((if length names == 1 then [] else text "s") ++ (text ": " ++ join_names names))))

live_names-marker_of :
    (ls : List NetworkLocation) → live_names (map marker_of ls) ≡ map name_of (live_of ls)
unfolding live_of marker_of live_marker
live_names-marker_of [] = refl
live_names-marker_of (l ∷ ls) = ground (arith, live_names-marker_of ls)

length-name_of : (ls : List NetworkLocation) → length (map name_of ls) ≡ length ls
length-name_of [] = refl
length-name_of (l ∷ ls) = ap suc (length-name_of ls)

told-name_of : (ls : List NetworkLocation) → told (map name_of ls) ≡ aria_label ls
unfolding aria_label
told-name_of ls = rw (length-name_of ls)

aria_label-live_of :
    (ls : List NetworkLocation) → aria_label (live_of ls) ≡ told (live_names (map marker_of ls))
aria_label-live_of ls = sym (ap told (live_names-marker_of ls) ∙ told-name_of (live_of ls))

length-marker_of : (ls : List NetworkLocation) → length (map marker_of ls) ≡ length ls
length-marker_of [] = refl
length-marker_of (l ∷ ls) = ap suc (length-marker_of ls)

-- For any list of places a marker is drawn for each, and the label of the map tells how many of those that
-- are drawn are live, and their names in the order in which they are drawn.
pub label_tells :
    (variant : Option Text) (ls : List NetworkLocation) (m : Mount) (v : MapView)
    → (mount_network_map variant (some ls) m).content ≡ some v
    → (v.label ≡ told (live_names v.markers)) × (length v.markers ≡ length ls)
unfolding mount_network_map
label_tells variant ls m v e = ground (arith, aria_label-live_of ls, length-marker_of ls)
