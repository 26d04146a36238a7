-- ===== src/SiteV2/Landing/Versions.antt =====
-- The landing pages of the two versions, side by side.
use veritas_vpn.Base.{◌≡◌, refl}
use veritas_vpn.Site.Landing.{on_menu_toggle, on_menu_link, on_question}
use veritas_vpn.Site.Landing.Page as V1
use veritas_vpn.SiteV2.Landing.{
  Chrome, Event, scroll, click_toggle, click_link, click_question_at, intersections, handle,
}

-- The same parts of the first version's page.
abbrev chrome_of : V1.Page → Chrome
chrome_of p = record {
  hero_map = p.hero_map;
  panel_map = p.panel_map;
  scrolled = p.scrolled;
  menu_active = p.landing.menu_active;
  bars = p.bars;
  questions = p.landing.questions;
  reveals = p.reveals;
}

abbrev first_event : Event → V1.Event
first_event (scroll y) = V1.scroll y
first_event click_toggle = V1.click_toggle
first_event click_link = V1.click_link
first_event (click_question_at i) = V1.click_question i
first_event (intersections entries) = V1.intersections entries

-- An event does the same to the parts that the two pages share.
pub chrome_of-handle :
    (e : Event) (p : V1.Page) → chrome_of (V1.handle (first_event e) p) ≡ handle e (chrome_of p)
unfolding V1.handle handle on_menu_toggle on_menu_link on_question
chrome_of-handle (scroll y) p = refl
chrome_of-handle click_toggle p = refl
chrome_of-handle click_link p = refl
chrome_of-handle (click_question_at i) p = refl
chrome_of-handle (intersections entries) p = refl
