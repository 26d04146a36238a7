-- ===== src/Site/Landing/Page.antt =====
-- The rest of website/js/main.js: the maps, the bar of navigation, the button of the menu, and the parts of
-- the page that are revealed as they come into view.
use veritas_vpn.Base.{
  ℕ, zero, suc, ◌≤◌, ◌≡◌, Bool, true, false, not, Option, none, some, List, [], ◌∷◌, map, Text,
  text, ltb, arith, if◌then◌else◌,
}
use veritas_vpn.Site.NetworkMap.{Mount, mount_network_map}
use veritas_vpn.Site.Landing.{
  Landing, start, on_menu_toggle, on_menu_link, on_question, on_locked_click, count_open,
  count_open-click_question,
}

-- The styles of the three bars of the menu's button: none set, a cross (turned by 45 degrees and moved, not
-- seen, turned back), or three bars.
pub data Bars : Type 0 where
  unset crossed parallel : Bars

-- An element of the class `reveal`: whether it has the class `is-in`, and whether it is observed.
pub record Reveal : Type 0 where
  pub is_in : Bool
  pub observed : Bool

pub record Page : Type 0 where
  pub landing : Landing
  pub hero_map : Option Mount
  pub panel_map : Option Mount
  pub scrolled : Bool
  pub bars : Bars
  pub reveals : List Reveal

unfoldable pub mount_as : Text → Option Mount → Option Mount
unfolding mount_network_map
mount_as variant none = none
mount_as variant (some mount) = some (mount_network_map (some variant) none mount)

unfoldable pub start_reveal : Bool → Reveal → Reveal
start_reveal true r = record r { is_in = true }
start_reveal false r = record r { observed = true }

-- The listener of `DOMContentLoaded`.
unfoldable pub load : (Text → Option ℕ) → ℕ → Bool → Bool → Bool → Page → Page
unfolding start mount_as start_reveal
load payload_exp now asks_signin asks_signup reduce_motion p = record p {
  landing = start payload_exp now asks_signin asks_signup p.landing;
  hero_map = mount_as (text "hero") p.hero_map;
  panel_map = mount_as (text "panel") p.panel_map;
  reveals = map (start_reveal reduce_motion) p.reveals;
}

-- The callback of the observer, for one entry: the place of its element, and whether it intersects.
unfoldable pub on_entry : ℕ → Bool → List Reveal → List Reveal
on_entry i intersects [] = []
on_entry zero intersects (r ∷ rs) =
    (if intersects then record { is_in = true; observed = false } else r) ∷ rs
on_entry (suc i) intersects (r ∷ rs) = r ∷ on_entry i intersects rs

unfoldable pub on_entries : List (ℕ × Bool) → List Reveal → List Reveal
unfolding on_entry
on_entries [] rs = rs
on_entries ((i, intersects) ∷ entries) rs = on_entries entries (on_entry i intersects rs)

pub data Event : Type 0 where
  scroll : ℕ → Event
  click_toggle click_link click_locked : Event
  click_question : ℕ → Event
  intersections : List (ℕ × Bool) → Event

unfoldable pub handle : Event → Page → Page
unfolding on_entries on_menu_toggle on_menu_link on_question on_locked_click
handle (scroll y) p = record p { scrolled = ltb 10 y }
handle click_toggle p = record p {
  landing = on_menu_toggle p.landing;
  bars = if (on_menu_toggle p.landing).menu_active then crossed else parallel;
}
handle click_link p = record p { landing = on_menu_link p.landing; bars = parallel }
handle click_locked p =
    if p.landing.alpha then p else record p { landing = on_locked_click p.landing }
handle (click_question i) p = record p { landing = on_question i p.landing }
handle (intersections entries) p = record p { reveals = on_entries entries p.reveals }

pub data Run (p : Page) : Page → Type 0 where
  here : Run p p
  next : {q : Page} (e : Event) → Run p q → Run p (handle e q)

abbrev is_crossed : Bars → Bool
is_crossed crossed = true
is_crossed unset = false
is_crossed parallel = false

-- Each element is on show, or it is observed and will be.
abbrev pub AllAwaited : List Reveal → Type 0
AllAwaited [] = Unit {0}
AllAwaited (r ∷ rs) = (r.observed ≡ not r.is_in) × AllAwaited rs

pub record IsTidy (p : Page) : Type 0 where
  pub bars : is_crossed p.bars ≡ p.landing.menu_active
  pub questions : count_open p.landing.questions ≤ 1
  pub reveals : AllAwaited p.reveals

on_entry-awaited :
    (i : ℕ) (intersects : Bool) (rs : List Reveal)
    → AllAwaited rs
    → AllAwaited (on_entry i intersects rs)
unfolding on_entry
on_entry-awaited i intersects [] h = h
on_entry-awaited zero true (r ∷ rs) h = ground arith
on_entry-awaited zero false (r ∷ rs) h = h
on_entry-awaited (suc i) intersects (r ∷ rs) h = (h.0, on_entry-awaited i intersects rs h.1)

on_entries-awaited :
    (entries : List (ℕ × Bool)) (rs : List Reveal)
    → AllAwaited rs
    → AllAwaited (on_entries entries rs)
unfolding on_entries
on_entries-awaited [] rs h = h
on_entries-awaited ((i, intersects) ∷ entries) rs h =
    on_entries-awaited entries (on_entry i intersects rs) (on_entry-awaited i intersects rs h)

handle-IsTidy : (e : Event) (p : Page) → IsTidy p → IsTidy (handle e p)
unfolding handle
handle-IsTidy (scroll y) p h = record {
  bars = h.bars;
  questions = h.questions;
  reveals = h.reveals;
}
handle-IsTidy click_toggle p h = ground arith
handle-IsTidy click_link p h = ground arith
handle-IsTidy click_locked p h = ground arith
handle-IsTidy (click_question i) p h = record {
  bars = h.bars;
  questions = count_open-click_question i p.landing.questions;
  reveals = h.reveals;
}
handle-IsTidy (intersections entries) p h = record {
  bars = h.bars;
  questions = h.questions;
  reveals = on_entries-awaited entries p.reveals h.reveals;
}

Run-IsTidy : {p q : Page} → IsTidy p → Run p q → IsTidy q
Run-IsTidy h here = h
Run-IsTidy h (next {q = q} e r) = handle-IsTidy e q (Run-IsTidy h r)

abbrev pub AllHidden : List Reveal → Type 0
AllHidden [] = Unit {0}
AllHidden (r ∷ rs) = (r.is_in ≡ false) × (r.observed ≡ false) × AllHidden rs

-- The page as the browser has read it.
pub record IsUntouched (p : Page) : Type 0 where
  pub bars : p.bars ≡ unset
  pub menu : p.landing.menu_active ≡ false
  pub questions : count_open p.landing.questions ≡ 0
  pub reveals : AllHidden p.reveals

start_reveal-awaited :
    (reduce_motion : Bool) (rs : List Reveal)
    → AllHidden rs
    → AllAwaited (map (start_reveal reduce_motion) rs)
unfolding start_reveal
start_reveal-awaited reduce_motion [] h = h
start_reveal-awaited true (r ∷ rs) h = (ground arith, start_reveal-awaited true rs h.2)
start_reveal-awaited false (r ∷ rs) h = (ground arith, start_reveal-awaited false rs h.2)

module _ (payload_exp : Text → Option ℕ) (now : ℕ) (asks_signin asks_signup : Bool) where
  load-IsTidy :
      (reduce_motion : Bool) (p : Page)
      → IsUntouched p
      → IsTidy (load payload_exp now asks_signin asks_signup reduce_motion p)
  unfolding load
  load-IsTidy reduce_motion p h = record {
    bars = ground arith;
    questions = ground arith;
    reveals = start_reveal-awaited reduce_motion p.reveals h.reveals;
  }

  -- However the page is used once it is loaded, with early access or without, and with motion reduced or
  -- not: the button of the menu shows a cross exactly while the menu is open, at most one question is
  -- open, and every part that is revealed on scrolling is on show or still observed, and not both.
  pub load-Run-IsTidy :
      (reduce_motion : Bool) (p : Page) {q : Page}
      → IsUntouched p
      → Run (load payload_exp now asks_signin asks_signup reduce_motion p) q
      → IsTidy q
  load-Run-IsTidy reduce_motion p h r = Run-IsTidy (load-IsTidy reduce_motion p h) r
