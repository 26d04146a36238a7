-- ===== src/SiteV2/Page/Tests.antt =====
-- A visit of the second version's account page, beside one of the first.
use veritas_vpn.Base.{◌≡◌, refl, true, false, some, [], ◌∷◌, List, text, starts_with, ok, throw}
use veritas_vpn.Api.{Data, empty_data}
use veritas_vpn.Site.Token.{expires_soon}
use veritas_vpn.Site.Account.Actions as V1Actions
use veritas_vpn.Site.Account.Actions.{follow_link, act, auth_changed, cancel}
use veritas_vpn.Site.Account.Async as V1Async
use veritas_vpn.Site.Account.Async.{on, renew, go_on}
use veritas_vpn.SiteV2.Page.{start}
use veritas_vpn.SiteV2.Page.Visits.{
  Visit, Happening, both, click_mobile_nav, click_nav_link, happen_all,
}
use veritas_vpn.SiteV2.Page.Lockstep.{VisitTwins, to_first, versions_in_step}
use veritas_vpn.Site.Samples.{granting, payload_exp, locale_date}

abbrev premium : Data
premium = record empty_data { is_premium = some true; status = some (text "active") }

-- A sign-in, a look at the subscription from the sidebar, and a cancellation that is refused.
abbrev happenings : List Happening
happenings =
    both (on (auth_changed 5))
    ∷ both (go_on 0 (ok premium))
    ∷ click_mobile_nav
    ∷ click_nav_link
    ∷ both (on (follow_link (text "#/subscription")))
    ∷ both (on (act 6 true cancel))
    ∷ both (renew 7)
    ∷ both (go_on 0 (throw (text "Request failed")))
    ∷ []

abbrev second : Visit
second =
    happen_all locale_date payload_exp happenings
      (record { account = start [] granting; tasks = [] })

versions_in_step_example :
    VisitTwins locale_date payload_exp
      (V1Async.happen_all locale_date payload_exp
        (to_first happenings)
        (record { account = V1Actions.start [] granting; tasks = [] }))
      second
versions_in_step_example = versions_in_step locale_date payload_exp [] granting happenings

shown :
    (second.account.boot_hidden ≡ true)
    × (second.account.sidebar_open ≡ false)
    × (second.account.page.active_nav ≡ text "/subscription")
    × (second.tasks ≡ [])
unfolding start happen_all text expires_soon starts_with
shown = (refl, refl, refl, refl)
