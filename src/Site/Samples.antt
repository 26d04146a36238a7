-- ===== src/Site/Samples.antt =====
-- Concrete states of the site, for its tests.
use veritas_vpn.Base.{ℕ, true, false, none, some, [], ◌∷◌, Text, text, List, Option}
use veritas_vpn.Base.Net.{Answer, answered, parsed}
use veritas_vpn.Api.{User, Data, empty_data}
use veritas_vpn.Site.Session.{Site, json}
use veritas_vpn.Site.Modes.{signin, View}
use veritas_vpn.Site.Billing.{Shop}

abbrev pub ann : User
ann = record {
  email = some (text "ann@x.org");
  account_id = some (text "a1");
  is_anonymous = false;
}

abbrev pub site_with : List (Answer Data) → Site
site_with answers = record {
  storage = record {
    user = some (json ann);
    access_token = some (text "t");
    refresh_token = some (text "r");
  };
  current_user = some ann;
  auth_ready = false;
  listeners = [];
  calls = [];
  net = record { answers = answers; sent = [] };
}

abbrev pub granting : Site
granting = site_with (
    answered (record {
      status = 200;
      body =
          parsed (record empty_data {
            checkout_url = some (text "https://pay");
            is_premium = some true;
          });
    })
    ∷ [])

-- No token says when it expires.
abbrev pub payload_exp : Text → Option ℕ
payload_exp part = none

abbrev pub nothing : View
nothing = record {
  active_tab = signin;
  title = [];
  submit_text = [];
  submit_class = [];
  submit_hidden = false;
  form_hidden = false;
  fields_hidden = false;
  reset_hidden = false;
  hint_hidden = false;
  hint_text = [];
  anon_signup_hidden = false;
  anon_signin_hidden = true;
  note_hidden = none;
  tabs_hidden = false;
  brand_hidden = false;
  divider_hidden = false;
  forgot_hidden = none;
  email_label = [];
  email_type = [];
  placeholder = [];
  email_autocomplete = [];
  email_required = true;
  password_hidden = false;
  password_required = true;
  password_autocomplete = [];
}

abbrev pub shop_of : Site → Shop
shop_of site = record {
  app = record {
    site = site;
    form = record {
      mode = signin;
      busy = false;
      pending_redirect = false;
      is_open = false;
      menu_open = false;
      error = [];
      error_is_success = false;
      email_value = [];
      password_value = [];
      forgot_value = [];
      logged_in_shown = false;
      nav_email = [];
      view = nothing;
    };
    redirect_after_auth = true;
    pathname = text "/";
    href = none;
    dispatched = [];
    downloads = [];
    closings = 0;
    pending = [];
  };
  plan = record {
    badge_hidden = true;
    badge_text = [];
    badge_is_premium = false;
    upgrade_hidden = false;
  };
  button = record { disabled = false; label = text "Upgrade" };
  opened = [];
  alerts = [];
}

-- A date is shown as it is written.
abbrev pub locale_date : Text → Text
locale_date iso = iso
