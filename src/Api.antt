-- ===== src/Api.antt =====
-- What the clients exchange with the services: a user record (website/js/auth.js, line 529 and the
-- like, clients/desktop/src/auth.ts, lines 22-26) and the fields of the JSON answers that the
-- JavaScript of the site and of the extension reads. A field that may be missing is an `Option`.
use veritas_vpn.Base.{Bool, true, Option, none, Text, text}

pub record User : Type 0 where
  pub email : Option Text
  pub account_id : Option Text
  pub is_anonymous : Bool

pub record Data : Type 0 where
  pub error : Option Text
  pub access_token : Option Text
  pub refresh_token : Option Text
  pub account_id : Option Text
  pub email : Option Text
  pub checkout_url : Option Text
  pub is_premium : Option Bool
  pub cancel_at_period_end : Option Bool
  pub status : Option Text
  pub current_period_end : Option Text

-- The object `{}`.
abbrev pub empty_data : Data
empty_data = record {
  error = none;
  access_token = none;
  refresh_token = none;
  account_id = none;
  email = none;
  checkout_url = none;
  is_premium = none;
  cancel_at_period_end = none;
  status = none;
  current_period_end = none;
}

abbrev pub auth_api : Text
auth_api = text "https://api.veritasvpn.cloud"

abbrev pub billing_api : Text
billing_api = text "https://api.veritasvpn.cloud"

-- The user that the sign-in by account ID and the anonymous registration build.
abbrev pub anonymous_user : Data → User
anonymous_user d = record { email = none; account_id = d.account_id; is_anonymous = true }
