-- ===== src/Desktop/Screen.antt =====
-- clients/desktop/src/App.tsx, lines 48-105 and 308-487: what the application renders, by the parts that
-- vary. `toUpperCase` is that of the ASCII letters.
pub mod Honest
mod Tests
use veritas_vpn.Base.{
  ℕ, ◌-◌, Bool, true, false, ◌&&◌, Option, none, some, [], ◌∷◌, Text, text, or_else, or_null, leb,
  is_truthy, if◌then◌else◌,
}
use veritas_vpn.Api.{User}
use veritas_vpn.Desktop.Attempt.{AuthMode, signin, signup, AuthMethod, email, account_id, Desktop}
use veritas_vpn.Desktop.Handlers.{is_wireguard}
use veritas_vpn.Desktop.View.{is_account_id, is_signup}

-- The inputs of the form, with what is in them; `min_length` is that of the password.
pub data Inputs : Type 0 where
  email_inputs : (address secret autocomplete : Text) (required : Bool) (min_length : ℕ) → Inputs
  id_input : Text → (required : Bool) → Inputs
  no_input : Inputs

-- A new account ID with its button to continue, or inputs and the button that submits them.
pub data FormBody : Type 0 where
  new_id : Text → FormBody
  fields : Inputs → (label : Text) → (disabled : Bool) → FormBody

-- `tabs` is the tab that is active, where they are on show.
pub record AuthForm : Type 0 where
  pub error : Option Text
  pub tabs : Option AuthMode
  pub body : FormBody
  pub switch_link : Option Text

pub data Button : Type 0 where
  connect_button : (label : Text) → (disabled : Bool) → Button
  disconnect_button : Button

pub record Dashboard : Type 0 where
  pub avatar : Text
  pub name : Text
  pub map_latency : Text
  pub orb_lock : Text
  pub eyebrow : Text
  pub heading : Text
  pub copy : Text
  pub button : Button
  pub state : Text
  pub tunnel : Text
  pub status : Option Text

pub data Screen : Type 0 where
  form_screen : AuthForm → Screen
  dashboard : Dashboard → Screen

upper_code : ℕ → ℕ
upper_code c = if leb b'a' c && leb c b'z' then c - 32 else c

-- `name.slice(0, 1).toUpperCase()`.
initial : Text → Text
unfolding upper_code
initial [] = []
initial (c ∷ s) = upper_code c ∷ []

submit_label : Bool → Text → Text
submit_label loading label = if loading then text "Please wait..." else label

render_inputs : AuthMethod → AuthMode → Desktop → FormBody
unfolding submit_label
render_inputs email signin d =
    fields (email_inputs d.email d.password (text "current-password") true 6)
      (submit_label d.loading (text "Sign in")) d.loading
render_inputs email signup d =
    fields (email_inputs d.email d.password (text "new-password") true 6)
      (submit_label d.loading (text "Create account")) d.loading
render_inputs account_id signin d =
    fields (id_input d.account_id true) (submit_label d.loading (text "Sign in with Account ID"))
      d.loading
render_inputs account_id signup d =
    fields no_input (submit_label d.loading (text "Create anonymous account")) d.loading

switch_text : AuthMethod → AuthMode → Text
switch_text email signin = text "Sign in with Account ID instead"
switch_text email signup = text "Skip email — create anonymous account"
switch_text account_id signin = text "Sign in with email instead"
switch_text account_id signup = text "Use email instead"

unfoldable pub render_form : Desktop → AuthForm
unfolding render_inputs switch_text
render_form d =
    let showing = is_truthy d.new_account_id in
    record {
      error = or_null (some d.error);
      tabs = if showing then none else some d.mode;
      body = if showing then new_id d.new_account_id else render_inputs d.method d.mode d;
      switch_link = if showing then none else some (switch_text d.method d.mode);
    }

connected_copy : Desktop → Text
connected_copy d =
    if is_wireguard d.tunnel_mode
    then text "Your internet traffic is encrypted through our WireGuard node in Paraguay."
    else text "Your browser traffic is protected through our encrypted proxy in Paraguay."

render_button : Desktop → Button
render_button d =
    if d.connected
    then disconnect_button
    else connect_button (if d.connecting then text "Connecting…" else text "Connect now")
        d.connecting

unfoldable pub render_dashboard : User → Desktop → Dashboard
unfolding initial connected_copy render_button
render_dashboard user d = record {
  avatar = initial (or_else user.email (or_else user.account_id (text "V")));
  name = or_else user.email (text "Anonymous account");
  map_latency = if d.connected then text "Encrypted" else text "Ready";
  orb_lock = if d.connected then text "✓" else text "V";
  eyebrow = if d.connected then text "CONNECTION SECURED" else text "VPN READY";
  heading = if d.connected then text "You’re protected" else text "Connect to Veritas";
  copy =
      if d.connected
      then connected_copy d
      else text "Route your traffic privately through our live node in Paraguay.";
  button = render_button d;
  state = if d.connected then text "Protected" else text "Not connected";
  tunnel = if is_wireguard d.tunnel_mode then text "WireGuard" else text "WireGuard only";
  status = or_null (some d.status_msg);
}

-- A new account ID is on show after an anonymous registration.
shows_new_id : Desktop → Bool
shows_new_id d = is_truthy d.new_account_id && (is_account_id d.method && is_signup d.mode)

unfoldable pub render : Desktop → Screen
unfolding render_form render_dashboard shows_new_id
render d = elim d.user [
  | none ↦ form_screen (render_form d)
  | some user ↦
      if shows_new_id d then form_screen (render_form d) else dashboard (render_dashboard user d)
]
