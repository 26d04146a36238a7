-- ===== src/Site/Tests.antt =====
-- Billing and the account page at concrete states.
use veritas_vpn.Base.{true, [], some, text}
use veritas_vpn.Api.{Data, empty_data}
use veritas_vpn.Site.Account.Actions.{auth_changed, start}
use veritas_vpn.Site.Account.Async.{Visit, on, happen}
use veritas_vpn.Site.Samples.{granting, payload_exp, locale_date}

abbrev signed_in : Visit
signed_in =
    happen locale_date payload_exp (on (auth_changed 5))
      (record { account = start [] granting; tasks = [] })

abbrev premium : Data
premium = record empty_data { is_premium = some true; status = some (text "active") }
