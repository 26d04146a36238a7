-- ===== src/Extension/Samples.antt =====
-- Concrete states of the extension, for its tests.
use veritas_vpn.Base.{true, false, none, some, [], ◌∷◌, text}
use veritas_vpn.Base.Net.{answered, parsed}
use veritas_vpn.Api.{User, empty_data}
use veritas_vpn.Extension.Auth.{Browser}
use veritas_vpn.Extension.Popup.{Popup, signin, email}

abbrev pub ann : User
ann = record { email = some (text "ann@x.org"); account_id = none; is_anonymous = false }

abbrev pub idle : Browser
idle = record {
  storage = record {
    user = some ann;
    access_token = some (text "t");
    refresh_token = some (text "r");
    connected = none;
    proxy = none;
  };
  rules = none;
  badge_text = [];
  badge_color = [];
  clear_rejects = false;
  net = record {
    answers =
        answered (record {
          status = 200;
          body = parsed (record empty_data {
            access_token = some (text "t2");
            account_id = some (text "a1");
          });
        })
        ∷ [];
    sent = [];
  };
}

abbrev pub popup : Popup
popup = record {
  browser = idle;
  mode = signin;
  method = email;
  banner = [];
  banner_is_error = false;
  fields = record {
    active_tab = signin;
    email_hidden = false;
    account_id_hidden = true;
    hint_hidden = true;
    email_required = true;
    password_required = true;
    account_id_required = false;
    submit_text = text "Sign in";
    toggle_text = text "Sign in with Account ID instead";
  };
  status = record { pressed = false; label = text "Connect"; state = text "Disconnected" };
  auth_hidden = true;
  main_hidden = false;
  submit_disabled = false;
  user_email = text "ann@x.org";
  email_value = text " bob@x.org ";
  password_value = text "secret";
  account_id_value = [];
  proxy_scheme = text "socks5";
  proxy_host = [];
  proxy_port = 1080;
}
