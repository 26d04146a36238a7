-- ===== src/Desktop/View.antt =====
-- clients/desktop/src/App.tsx, lines 106-125 and 308-487: the state at the start, which of its two
-- views the application shows, and the controls that each of them has. A handler's awaited calls run
-- without another handler between them, but for the sign-out, which does not wait for the disconnect.
use veritas_vpn.Base.{
  Bool, true, false, not, ◌&&◌, ◌||◌, [], Text, is_truthy, is_some, leb, length, if◌then◌else◌,
}
use veritas_vpn.Desktop.Auth.{Client, get_stored_user}
use veritas_vpn.Desktop.Attempt.{
  AuthMode, signin, signup, AuthMethod, email, account_id, no_tunnel, Desktop,
}
use veritas_vpn.Desktop.Connect.{Native, handle_connect}
use veritas_vpn.Desktop.Handlers.{
  switch_mode, switch_method, handle_auth, handle_disconnect, handle_sign_out,
}

-- The initial values of the state variables.
unfoldable pub start : Client → Desktop
start c = record {
  client = c;
  user = get_stored_user c;
  mode = signin;
  method = email;
  email = [];
  password = [];
  account_id = [];
  new_account_id = [];
  error = [];
  loading = false;
  connected = false;
  tunnel_mode = no_tunnel;
  peer_id = [];
  status_msg = [];
  connecting = false;
  configs = [];
}

abbrev pub is_account_id : AuthMethod → Bool
is_account_id account_id = true
is_account_id email = false

abbrev pub is_signup : AuthMode → Bool
is_signup signup = true
is_signup signin = false

-- `!user || (newAccountId && method === "accountId" && mode === "signup")`.
unfoldable pub shows_form : Desktop → Bool
shows_form d =
    not (is_some d.user)
    || (is_truthy d.new_account_id && (is_account_id d.method && is_signup d.mode))

-- The account form with its tabs and inputs, not the new account ID.
unfoldable pub shows_inputs : Desktop → Bool
unfolding shows_form
shows_inputs d = shows_form d && not (is_truthy d.new_account_id)

-- The inputs of the email and the password, and the input of the account ID.
unfoldable pub shows_email : Desktop → Bool
unfolding shows_inputs
shows_email d = shows_inputs d && not (is_account_id d.method)

unfoldable pub shows_account_id : Desktop → Bool
unfolding shows_inputs
shows_account_id d = shows_inputs d && (is_account_id d.method && not (is_signup d.mode))

unfoldable pub other_method : AuthMethod → AuthMethod
other_method email = account_id
other_method account_id = email

-- The browser's check before `onSubmit`: the inputs that are there are `required`, and the password has six
-- characters at least (`minLength`). Whether the address looks like one (`type="email"`) is not asked here.
unfoldable pub is_filled : AuthMethod → AuthMode → Desktop → Bool
is_filled email mode d = is_truthy d.email && leb 6 (length d.password)
is_filled account_id signin d = is_truthy d.account_id
is_filled account_id signup d = true

pub data Event : Type 0 where
  submit click_switch click_continue status_timeout : Event
  click_tab : AuthMode → Event
  type_email type_password type_account_id : Text → Event
  click_connect click_disconnect click_sign_out : Native → Event

-- A control does something only where its view is shown and it is not disabled.
unfoldable pub handle : Event → Desktop → Desktop
unfolding shows_form shows_inputs shows_email shows_account_id other_method is_filled
handle submit d =
    if shows_inputs d && (not d.loading && is_filled d.method d.mode d) then handle_auth d else d
handle click_switch d = if shows_inputs d then switch_method (other_method d.method) d else d
handle click_continue d =
    if shows_form d && is_truthy d.new_account_id then record d { new_account_id = [] } else d
handle status_timeout d = record d { status_msg = [] }
handle (click_tab mode) d = if shows_inputs d then switch_mode mode d else d
handle (type_email value) d = if shows_email d then record d { email = value } else d
handle (type_password value) d = if shows_email d then record d { password = value } else d
handle (type_account_id value) d = if shows_account_id d then record d { account_id = value } else d
handle (click_connect native) d =
    if not (shows_form d) && (not d.connected && not d.connecting)
    then handle_connect native d
    else d
handle (click_disconnect native) d =
    if not (shows_form d) && d.connected then handle_disconnect native d else d
handle (click_sign_out native) d = if shows_form d then d else handle_sign_out native d

pub data Run (d : Desktop) : Desktop → Type 0 where
  here : Run d d
  next : {d' : Desktop} (e : Event) → Run d d' → Run d (handle e d')
