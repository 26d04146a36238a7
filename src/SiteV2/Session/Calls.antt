-- ===== src/SiteV2/Session/Calls.antt =====
-- What other code can call of auth.js and billing.js, in both versions: website/js and website/js-v2.
use veritas_vpn.Base.{ℕ, Bool, Option, List, [], ◌∷◌, Text, Result}
use veritas_vpn.Api.{User, Data}
use veritas_vpn.Site.Session as V1
use veritas_vpn.Site.Session.{Site, Options}
use veritas_vpn.Site.Billing as V1Billing
use veritas_vpn.SiteV2.Store as V2Store
use veritas_vpn.SiteV2.Session as V2
use veritas_vpn.SiteV2.Billing as V2Billing

-- The functions, at a time in seconds where they look at it.
pub record Service : Type 0 where
  pub is_logged_in : Site → Bool
  pub current_user : Site → Option User
  pub set_session : User → Option Text → Option Text → Site → Site
  pub clear_session : Site → Site
  pub sign_out_handler : Site → Site
  pub on_auth_state_changed : ℕ → Site → Site
  pub unsubscribe : ℕ → Site → Site
  pub api : Text → Options → Site → Result Data × Site
  pub api_with_auth : Text → Options → Site → Result Data × Site
  pub force_refresh : Site → Bool × Site
  pub id_token : ℕ → Site → Option Text × Site
  pub send_reset : Text → Site → Result (Unit {0}) × Site
  pub fetch_status : ℕ → Site → Result Data × Site
  pub cancel : ℕ → Site → Result Data × Site
  pub start_checkout : ℕ → Site → Result Text × Site

pub data Call : Type 0 where
  log_in : User → Option Text → Option Text → Call
  log_out forget refresh look look_at_user : Call
  request request_with_auth : Text → Options → Call
  token : ℕ → Call
  subscribe leave : ℕ → Call
  reset : Text → Call
  status cancel checkout : ℕ → Call

-- What a call gives to its caller.
pub data Given : Type 0 where
  nothing : Given
  answer : Result Data → Given
  flag : Bool → Given
  a_user : Option User → Given
  a_token : Option Text → Given
  mailed : Result (Unit {0}) → Given
  checkout_at : Result Text → Given

give : {A : Type 0} → (A → Given) → A × Site → Given × Site
give kind (a, s) = (kind a, s)

module _ (v : Service) where
  unfoldable pub perform : Call → Site → Given × Site
  unfolding give
  perform (log_in user access again) s = (nothing, v.set_session user access again s)
  perform log_out s = (nothing, v.sign_out_handler s)
  perform forget s = (nothing, v.clear_session s)
  perform look s = (flag (v.is_logged_in s), s)
  perform look_at_user s = (a_user (v.current_user s), s)
  perform refresh s = give flag (v.force_refresh s)
  perform (request path o) s = give answer (v.api path o s)
  perform (request_with_auth path o) s = give answer (v.api_with_auth path o s)
  perform (token now) s = give a_token (v.id_token now s)
  perform (subscribe fn) s = (nothing, v.on_auth_state_changed fn s)
  perform (leave fn) s = (nothing, v.unsubscribe fn s)
  perform (reset email) s = give mailed (v.send_reset email s)
  perform (status now) s = give answer (v.fetch_status now s)
  perform (cancel now) s = give answer (v.cancel now s)
  perform (checkout now) s = give checkout_at (v.start_checkout now s)

  -- The calls in turn, and what they give.
  unfoldable pub perform_all : List Call → Site → List Given × Site
  unfolding perform
  perform_all [] s = ([], s)
  perform_all (c ∷ cs) s =
      let (g, s') = perform c s in let (gs, s'') = perform_all cs s' in (g ∷ gs, s'')

module _ (payload_exp : Text → Option ℕ) where
  abbrev pub first : Service
  first = record {
    is_logged_in = V1.is_logged_in;
    current_user = V1.current_user;
    set_session = V1.set_session;
    clear_session = V1.clear_session;
    sign_out_handler = V1.sign_out_handler;
    on_auth_state_changed = V1.on_auth_state_changed;
    unsubscribe = V1.unsubscribe;
    api = V1.api;
    api_with_auth = V1.api_with_auth;
    force_refresh = V1.force_refresh_access_token;
    id_token = V1.get_id_token payload_exp;
    send_reset = V1.send_password_reset_email;
    fetch_status = V1Billing.fetch_billing_status payload_exp;
    cancel = V1Billing.cancel_subscription payload_exp;
    start_checkout = V1Billing.start_premium_checkout payload_exp;
  }

  abbrev pub second : Service
  second = record {
    is_logged_in = V2Store.is_logged_in;
    current_user = V2Store.current_user;
    set_session = V2Store.set_session;
    clear_session = V2Store.clear_session;
    sign_out_handler = V2Store.sign_out_handler;
    on_auth_state_changed = V2Store.on_auth_state_changed;
    unsubscribe = V2Store.unsubscribe;
    api = V2.api;
    api_with_auth = V2.api_with_auth;
    force_refresh = V2.force_refresh_access_token;
    id_token = V2.get_id_token payload_exp;
    send_reset = V2.send_password_reset_email;
    fetch_status = V2Billing.fetch_billing_status payload_exp;
    cancel = V2Billing.cancel_subscription payload_exp;
    start_checkout = V2Billing.start_premium_checkout payload_exp;
  }
