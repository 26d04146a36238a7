-- ===== src/Site/Account/Nav.antt =====
-- website/account/js/account-app.js, lines 29-34 and 360-368: the links of the sidebar, which one is
-- marked, and the sidebar of a phone. website/account/index.html has the links.
pub mod InStep
pub mod Laws
mod Tests
use veritas_vpn.Base.{
  ℕ, Bool, true, false, not, ◌&&◌, ◌||◌, Option, none, some, List, [], ◌∷◌, Text, text, text_eq,
  is_truthy, or_else,
}
use veritas_vpn.Site.Session.{Site}
use veritas_vpn.Site.Account.Actions.{start}
use veritas_vpn.Site.Account.Async.{Visit, Happening, happen}

-- A link: its `data-route`, and whether it has the class `is-active`.
pub record NavLink : Type 0 where
  pub route : Option Text
  pub is_active : Bool

abbrev pub link_route : NavLink → Text
link_route l = or_else l.route (text "/")

mark_link : Text → NavLink → NavLink
unfolding text_eq
mark_link path l = record l {
  is_active =
      text_eq (link_route l) path || (not (is_truthy path) && text_eq (link_route l) (text "/"));
}

unfoldable pub set_active_nav : Text → List NavLink → List NavLink
unfolding mark_link
set_active_nav path [] = []
set_active_nav path (l ∷ ls) = mark_link path l ∷ set_active_nav path ls

abbrev link_to : Text → Bool → NavLink
link_to path active = record { route = some path; is_active = active }

-- The links of the page as the browser has read it.
abbrev pub nav_links : List NavLink
nav_links =
    link_to (text "/") true
    ∷ link_to (text "/subscription") false
    ∷ link_to (text "/downloads") false
    ∷ link_to (text "/account") false
    ∷ link_to (text "/security") false
    ∷ []

-- The page in its frame. The links are marked by each rendering, with the path that the account keeps
-- as `active_nav`; before the first one it is empty, which marks the link that the page comes with.
pub record Frame : Type 0 where
  pub visit : Visit
  pub links : List NavLink
  pub sidebar_open : Bool

unfoldable pub on_mobile_nav : Frame → Frame
on_mobile_nav f = record f { sidebar_open = not f.sidebar_open }

-- A click on a link closes the sidebar; the `hashchange` that it leads to is a happening of the page.
unfoldable pub on_nav_link : Frame → Frame
on_nav_link f = record f { sidebar_open = false }

pub data Event : Type 0 where
  page : Happening → Event
  click_mobile_nav click_nav_link : Event

module _ (locale_date : Text → Text) (payload_exp : Text → Option ℕ) where
  unfoldable pub handle : Event → Frame → Frame
  unfolding happen set_active_nav on_mobile_nav on_nav_link
  handle (page h) f =
      let visit = happen locale_date payload_exp h f.visit in
      record f { visit = visit; links = set_active_nav visit.account.active_nav f.links }
  handle click_mobile_nav f = on_mobile_nav f
  handle click_nav_link f = on_nav_link f

  pub data Run (f : Frame) : Frame → Type 0 where
    here : Run f f
    next : {g : Frame} (e : Event) → Run f g → Run f (handle e g)

-- The page in its frame before the first event.
unfoldable pub open_page : Text → Site → Frame
unfolding start
open_page hash s = record {
  visit = record { account = start hash s; tasks = [] };
  links = nav_links;
  sidebar_open = false;
}
