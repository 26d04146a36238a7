-- ===== src/Site/Account/Nav/Laws.antt =====
-- The link that is marked leads to the page that is shown.
use veritas_vpn.Base.{
  ℕ, ◌≡◌, ◌⊎◌, inl, inr, refl, sym, ap, ◌∙◌, true, false, Option, none, some, List, [], ◌∷◌, Text,
  text, text_eq, text_eq→≡, Bool-cases, is_truthy, arith,
}
use mathlib.Core.Path.{subst}
use veritas_vpn.Api.{User, Data}
use veritas_vpn.Site.Session.{Site, current_user}
use veritas_vpn.Site.Session.Invariant.{IsConsistent}
use veritas_vpn.Site.AccountView.{Page, page_of}
use veritas_vpn.Site.Account.{Account, route}
use veritas_vpn.Site.Account.Actions.{start}
use veritas_vpn.Site.Account.Async.{
  Task, loading, checking_out, cancelling, reloading, resetting, begin_user, begin_reset,
  begin_action, begin, resume, have_cancelled, have_reset, Visit, Happening, on, renew, go_on,
  go_on_with, happen,
}
use veritas_vpn.Site.Account.Async as Async
use veritas_vpn.Site.Account.Races.{Run-IsFresh}
use veritas_vpn.Site.Account.Nav.{
  NavLink, link_route, mark_link, set_active_nav, Frame, page, click_mobile_nav, click_nav_link,
  handle, Run, here, next, open_page,
}
use veritas_vpn.Site.Account.Nav.InStep.{IsInStep, happen-IsInStep}

-- The links are marked as the last rendering marks them.
AreMarked : Text → List NavLink → Type 0
AreMarked path [] = Unit {0}
AreMarked path (l ∷ ls) = (mark_link path l ≡ l) × AreMarked path ls

mark_link_twice :
    (path path' : Text) (l : NavLink) → mark_link path (mark_link path' l) ≡ mark_link path l
unfolding mark_link
mark_link_twice path path' l = refl

set_active_nav-AreMarked :
    (path : Text) (ls : List NavLink) → AreMarked path (set_active_nav path ls)
unfolding AreMarked set_active_nav
set_active_nav-AreMarked path [] = tt
set_active_nav-AreMarked path (l ∷ ls) =
    (mark_link_twice path path l, set_active_nav-AreMarked path ls)

route_truthy : (hash : Text) → is_truthy (route hash) ≡ true
unfolding route text
route_truthy hash = ground arith

-- A link is marked exactly if its route is the path, and one that is marked leads to the page.
Leads : (Text → Text) → Text → Page → User → Option Data → NavLink → Type 0
Leads locale_date path p user status l =
    (l.is_active ≡ text_eq (link_route l) path)
    × ((l.is_active ≡ false) ⊎ (p ≡ page_of locale_date (link_route l) user status))

pub AllLead : (Text → Text) → Text → Page → User → Option Data → List NavLink → Type 0
AllLead locale_date path p user status [] = Unit {0}
AllLead locale_date path p user status (l ∷ ls) =
    Leads locale_date path p user status l × AllLead locale_date path p user status ls

module _ (locale_date : Text → Text) (path : Text) (user : User) (status : Option Data)
    (truthy : is_truthy path ≡ true) where
  is_active_lem : (l : NavLink) → mark_link path l ≡ l → l.is_active ≡ text_eq (link_route l) path
  unfolding mark_link
  is_active_lem l h = sym (ap (λ l. l.is_active) h) ∙ ground arith

  marked-Leads :
      (l : NavLink)
      → mark_link path l ≡ l
      → Leads locale_date path (page_of locale_date path user status) user status l
  unfolding Leads
  marked-Leads l h = elim (Bool-cases (text_eq (link_route l) path)) [
    | inl same ↦ (
      is_active_lem l h,
      inr (
          ap (λ path. page_of locale_date path user status)
            (sym (text_eq→≡ (link_route l) path same))),
    )
    | inr other ↦ (is_active_lem l h, inl (is_active_lem l h ∙ other))
  ]

  AreMarked-AllLead :
      (ls : List NavLink)
      → AreMarked path ls
      → AllLead locale_date path (page_of locale_date path user status) user status ls
  unfolding AreMarked AllLead
  AreMarked-AllLead [] h = tt
  AreMarked-AllLead (l ∷ ls) h = (marked-Leads l h.0, AreMarked-AllLead ls h.1)

some_is : (o : Option Page) (p q : Page) → o ≡ some p → o ≡ some q → q ≡ p
some_is o p q h k = cc

-- What is known of the page that is shown, put together.
all_lead :
    (locale_date : Text → Text) (a : Account) (ls : List NavLink) (user : User) (p : Page)
    → (a.content ≡ none)
      ⊎ (a.content ≡ some (page_of locale_date (route a.hash) user a.billing_status))
    → IsInStep a
    → AreMarked a.active_nav ls
    → a.content ≡ some p
    → AllLead locale_date (route a.hash) p user a.billing_status ls
unfolding IsInStep
all_lead locale_date a ls user p (inl e) k m h = cc
all_lead locale_date a ls user p (inr e) (inl k) m h = cc
all_lead locale_date a ls user p (inr e) (inr k) m h =
    subst (λ q. AllLead locale_date (route a.hash) q user a.billing_status ls)
      (some_is a.content p _ h e)
      (AreMarked-AllLead locale_date (route a.hash) user a.billing_status (route_truthy a.hash) ls
        (subst (λ path. AreMarked path ls) k m))

module _ (locale_date : Text → Text) (payload_exp : Text → Option ℕ) (hash : Text) (s : Site) where
  visit_of :
      {f : Frame}
      → Run locale_date payload_exp (open_page hash s) f
      → Async.Run locale_date payload_exp (record { account = start hash s; tasks = [] }) f.visit
  unfolding open_page handle
  visit_of here = Async.here
  visit_of (next (page h) r) = Async.next h (visit_of r)
  visit_of (next click_mobile_nav r) = visit_of r
  visit_of (next click_nav_link r) = visit_of r

  Run-IsInStep :
      {f : Frame}
      → Run locale_date payload_exp (open_page hash s) f
      → IsInStep f.visit.account × AreMarked f.visit.account.active_nav f.links
  unfolding open_page handle start IsInStep AreMarked mark_link text
  Run-IsInStep here = (inl refl, (refl, (refl, (refl, (refl, (refl, tt))))))
  Run-IsInStep (next {g = g} (page h) r) = (
    happen-IsInStep locale_date payload_exp h g.visit (Run-IsInStep r).0,
    set_active_nav-AreMarked _ g.links,
  )
  Run-IsInStep (next click_mobile_nav r) = Run-IsInStep r
  Run-IsInStep (next click_nav_link r) = Run-IsInStep r

  -- However the handlers of the account page are interleaved, from a start with a consistent session:
  -- while a page is shown to a signed-in user, a link of the sidebar is marked exactly if its route is
  -- the path of the address, and a link that is marked leads to the page that is shown.
  pub active_link_leads :
      {f : Frame}
      → IsConsistent s
      → Run locale_date payload_exp (open_page hash s) f
      → (user : User) (p : Page) → current_user f.visit.account.site ≡ some user
      → f.visit.account.content ≡ some p
      → AllLead locale_date
          (route f.visit.account.hash)
          p
          user
          f.visit.account.billing_status
          f.links
  active_link_leads {f = f} c r user p there shown =
      all_lead locale_date f.visit.account f.links user p
        ((Run-IsFresh locale_date payload_exp hash s c (visit_of r)).fresh user there)
        (Run-IsInStep r).0 (Run-IsInStep r).1 shown
