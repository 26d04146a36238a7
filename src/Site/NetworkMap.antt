-- ===== src/Site/NetworkMap.antt =====
-- website/js/network-map.js: the map of the places of the network. Latitudes and longitudes are kept in
-- tenths of a degree, as the list of places has them, and positions in 3600ths of a unit of the view box,
-- where `project` is exact; no position lies half way between two tenths, so that `toFixed(1)` of the
-- code's floating-point numbers gives the digits that the model gives.
pub mod Laws
mod Tests
use veritas_vpn.Base.{
  ℕ, suc, ◌+◌, ◌*◌, ◌/◌, Bool, true, false, Option, none, some, List, [], ◌∷◌, ◌++◌, map, Text,
  text, text_eq, is_truthy, or_else, length, ◌==◌, if◌then◌else◌,
}
use veritas_vpn.Base.Int.{ℤ, pos, negsuc, ◌+ℤ◌, ◌-ℤ◌, min, max, scale}
use veritas_vpn.Base.Decimal.{decimal, point}

pub data Status : Type 0 where
  live soon : Status

abbrev pub is_live : Status → Bool
is_live live = true
is_live soon = false

pub record NetworkLocation : Type 0 where
  pub id : Text
  pub name : Text
  pub city : Text
  pub country : Text
  pub lat : ℤ
  pub lng : ℤ
  pub status : Status

abbrev pub network_locations : List NetworkLocation
network_locations =
    record {
      id = text "py-asu";
      name = text "Paraguay";
      city = text "Asunción metro";
      country = text "PY";
      lat = negsuc 252;
      lng = negsuc 575;
      status = live;
    }
    ∷ []

pub record Position : Type 0 where
  pub x : ℤ
  pub y : ℤ

unfoldable pub project : ℤ → ℤ → ℕ → ℕ → Position
project lat lng width height = record {
  x = scale width (lng +ℤ pos 1800);
  y = scale (2 * height) (pos 900 -ℤ lat);
}

-- A whole number of units.
abbrev pub units : ℕ → ℤ
units n = pos (n * 3600)

-- The nearest tenth of a position that is not negative.
unfoldable pub tenths : ℕ → ℕ
tenths v = (v + 180) / 360

-- `v.toFixed(1)`.
unfoldable pub to_fixed : ℤ → Text
unfolding tenths point
to_fixed (pos v) = point (tenths v)
to_fixed (negsuc v) = b'-' ∷ point (tenths (suc v))

-- Where the label of a marker begins.
unfoldable pub label_at : Position → Position
label_at p = record { x = min (p.x +ℤ units 14) (units 880); y = max (p.y -ℤ units 16) (units 24) }

-- What is drawn for a place; the box of a live one's label is 118 wide and 32 high.
pub data Marker : Type 0 where
  soon_at : (x y : Text) → Marker
  live_at : (id cx cy box_x box_y label_x label_y name sub_y sub : Text) → Marker

unfoldable pub live_marker : NetworkLocation → Position → Position → Marker
unfolding to_fixed
live_marker l p label =
    live_at l.id (to_fixed p.x) (to_fixed p.y) (to_fixed (label.x -ℤ units 6))
      (to_fixed (label.y -ℤ units 14)) (to_fixed label.x) (to_fixed label.y) l.name
      (to_fixed (label.y +ℤ units 12)) (l.city ++ text " · live")

unfoldable pub marker_of : NetworkLocation → Marker
unfolding project label_at live_marker to_fixed
marker_of l =
    let p = project l.lat l.lng 1000 500 in
    if is_live l.status then live_marker l p (label_at p) else soon_at (to_fixed p.x) (to_fixed p.y)

unfoldable pub live_of : List NetworkLocation → List NetworkLocation
live_of [] = []
live_of (l ∷ ls) = if is_live l.status then l ∷ live_of ls else live_of ls

-- `names.join(', ')`.
unfoldable pub join_names : List Text → Text
join_names [] = []
join_names (n ∷ []) = n
join_names (n ∷ m ∷ ns) = n ++ (text ", " ++ join_names (m ∷ ns))

-- The distances of the grid's lines from the top and from the left, for `t` fifths.
abbrev grid_line : ℕ → Text × Text
grid_line t = (decimal (500 * t / 5), decimal (1000 * t / 5))

unfoldable pub aria_label : List NetworkLocation → Text
unfolding join_names decimal
aria_label lives =
    text "World map showing "
    ++ (decimal (length lives)
        ++ (text " live VeritasVPN location"
            ++ ((if length lives == 1 then [] else text "s")
                ++ (text ": " ++ join_names (map (λ (l : NetworkLocation). l.name) lives)))))

pub record MapView : Type 0 where
  pub variant : Text
  pub label : Text
  pub grid : List (Text × Text)
  pub markers : List Marker

-- The element that the map is put into.
pub record Mount : Type 0 where
  pub content : Option MapView
  pub aria_hidden : Bool

abbrev locations_or_all : Option (List NetworkLocation) → List NetworkLocation
locations_or_all none = network_locations
locations_or_all (some ls) = ls

unfoldable pub mount_network_map : Option Text → Option (List NetworkLocation) → Mount → Mount
unfolding live_of aria_label marker_of decimal text_eq
mount_network_map variant_option locations_option mount =
    let variant = or_else variant_option (text "panel") in
    let locations = locations_or_all locations_option in
    record {
      content = some (record {
        variant = variant;
        label = aria_label (live_of locations);
        grid = map grid_line (1 ∷ 2 ∷ 3 ∷ 4 ∷ []);
        markers = map marker_of locations;
      });
      aria_hidden = if text_eq variant (text "hero") then true else mount.aria_hidden;
    }
