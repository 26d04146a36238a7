-- ===== src/Site/Account/Nav/Tests.antt =====
-- The frame of the account page at a concrete visit.
use veritas_vpn.Base.{◌≡◌, refl, inr, true, false, some, [], ◌∷◌, text, ok, map, starts_with}
use veritas_vpn.Api.{Data, empty_data}
use veritas_vpn.Site.Session.{restore_session}
use veritas_vpn.Site.AccountView.{page_of}
use veritas_vpn.Site.Account.{route}
use veritas_vpn.Site.Account.Actions.{follow_link, auth_changed}
use veritas_vpn.Site.Account.Async.{on, go_on}
use veritas_vpn.Site.Account.Nav.{
  NavLink, Frame, page, click_mobile_nav, click_nav_link, handle, here, next, open_page,
}
use veritas_vpn.Site.Account.Nav.Laws.{AllLead, active_link_leads}
use veritas_vpn.Site.Samples.{ann, granting, payload_exp, locale_date}

abbrev premium : Data
premium = record empty_data { is_premium = some true; status = some (text "active") }

-- A sign-in, and a click on a link of the opened sidebar.
abbrev followed : Frame
followed = handle locale_date payload_exp (page (on (follow_link (text "#/account")))) (
    handle locale_date payload_exp click_nav_link (
      handle locale_date payload_exp click_mobile_nav (
        handle locale_date payload_exp (page (go_on 0 (ok premium)))
          (handle locale_date payload_exp (page (on (auth_changed 5))) (open_page [] granting)))))

marked :
    map (λ (l : NavLink). l.is_active) followed.links ≡ false ∷ false ∷ false ∷ true ∷ false ∷ []
unfolding handle open_page text starts_with
marked = refl

active_link_leads_example :
    AllLead locale_date
      (route (text "#/account"))
      (page_of locale_date (route (text "#/account")) ann (some premium))
      ann
      (some premium)
      followed.links
unfolding handle open_page restore_session text starts_with
active_link_leads_example =
    active_link_leads locale_date payload_exp [] granting
      (record { whole = (refl, refl); agrees = inr refl })
      (next (page (on (follow_link (text "#/account")))) (
        next click_nav_link (
          next click_mobile_nav
            (next (page (go_on 0 (ok premium))) (next (page (on (auth_changed 5))) here)))))
      ann (page_of locale_date (route (text "#/account")) ann (some premium)) refl refl
