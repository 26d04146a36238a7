-- ===== src/SiteV2/Session/Tests.antt =====
-- Calls of both versions at a concrete session.
use veritas_vpn.Base.{◌≡◌, refl, none, some, List, [], ◌∷◌, Text, text, text_of, includes, map}
use veritas_vpn.Base.Net.{get, answered, parsed, Request}
use veritas_vpn.Api.{empty_data}
use veritas_vpn.Site.Session.{Site, Options}
use veritas_vpn.Site.Token.{expires_soon}
use veritas_vpn.SiteV2.Store.{sign_out_handler}
use veritas_vpn.SiteV2.Session.{api_with_auth}
use veritas_vpn.SiteV2.Billing.{fetch_billing_status}
use veritas_vpn.SiteV2.Session.Calls.{
  Call, log_out, request_with_auth, status, perform_all, first, second,
}
use veritas_vpn.SiteV2.Session.Versions.{at_service, both, perform_all-at_service}
use veritas_vpn.Site.Samples.{site_with, payload_exp}

-- The token has expired; the service renews it and answers the request that is made again.
abbrev expired : Site
expired = site_with (
    answered (record {
      status = 401;
      body = parsed (record empty_data { error = some (text "invalid token") });
    })
    ∷ answered (record {
      status = 200;
      body =
          parsed (record empty_data {
            access_token = some (text "t2");
            refresh_token = some (text "r2");
          });
    })
    ∷ answered (record { status = 200; body = parsed empty_data })
    ∷ [])

abbrev asking : Options
asking = record { method = get; authorization = none; body = [] }

abbrev calls : List Call
calls = request_with_auth (text "/me") asking ∷ status 5 ∷ log_out ∷ []

perform_all-at_service_example :
    perform_all (first payload_exp) calls (at_service expired)
    ≡ both (perform_all (second payload_exp) calls expired)
perform_all-at_service_example = perform_all-at_service payload_exp calls expired

abbrev urls : List Request → List Text
urls rs = map (λ r. r.url) rs

-- What the second version has sent.
sent_to_itself :
    urls (perform_all (second payload_exp) calls expired).1.net.sent
    ≡ text "/me" ∷ text "/api/v1/auth/refresh" ∷ text "/me" ∷ text "/api/v1/billing/status" ∷ []
unfolding perform_all text sign_out_handler fetch_billing_status api_with_auth includes text_of
    expires_soon
sent_to_itself = refl
