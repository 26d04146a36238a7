-- ===== src/Site/Landing/Tests.antt =====
-- A visit of the landing page.
use veritas_vpn.Base.{refl, true, false, none, some, [], ◌∷◌}
use veritas_vpn.Site.Landing.{Landing}
use veritas_vpn.Site.Landing.Page.{
  Page, unset, load, handle, scroll, click_toggle, click_locked, click_question, intersections,
  here, next, IsTidy, load-Run-IsTidy,
}
use veritas_vpn.Site.Samples.{granting, payload_exp, shop_of}

abbrev front : Landing
front = record {
  visit = record { cookies = []; has_alpha = false; has_query = true };
  shop = shop_of granting;
  questions = false ∷ false ∷ [];
  menu_active = false;
  alerts = [];
  alpha = false;
}

abbrev page : Page
page = record {
  landing = front;
  hero_map = some (record { content = none; aria_hidden = true });
  panel_map = none;
  scrolled = false;
  bars = unset;
  reveals =
      record { is_in = false; observed = false } ∷ record { is_in = false; observed = false } ∷ [];
}

load-Run-IsTidy_example : IsTidy (
    handle (intersections ((1, true) ∷ (0, false) ∷ [])) (
      handle (click_question 1) (
        handle click_toggle
          (handle click_locked (handle (scroll 11) (load payload_exp 0 false true false page))))))
load-Run-IsTidy_example =
    load-Run-IsTidy payload_exp 0 false true false page
      (record {
        bars = refl;
        menu = refl;
        questions = refl;
        reveals = (refl, refl, (refl, refl, tt));
      })
      (next (intersections ((1, true) ∷ (0, false) ∷ []))
        (next (click_question 1) (next click_toggle (next click_locked (next (scroll 11) here)))))
