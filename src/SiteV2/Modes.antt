-- ===== src/SiteV2/Modes.antt =====
-- The modes of the sign-in window in website/js-v2/auth.js, lines 237-330: `setMode`, with the elements
-- that it sets. The elements that the code looks up are there.
use veritas_vpn.Base.{Bool, true, false, not, Text, text, if◌then◌else◌}

pub data Mode : Type 0 where
  signin signup anon_signup anon_signin : Mode

abbrev pub is_signin : Mode → Bool
is_signin signin = true
is_signin m = false

-- `mode.startsWith('anon-')`.
abbrev pub is_anon : Mode → Bool
is_anon anon_signup = true
is_anon anon_signin = true
is_anon m = false

-- The tab that is marked: each of the two names the mode that it stands for.
abbrev pub tab_of : Mode → Mode
tab_of anon_signup = signup
tab_of anon_signin = signin
tab_of m = m

-- What the window shows. The label of the password has both the attribute `hidden` and the style
-- `display`; it is seen where neither takes it away.
pub record View : Type 0 where
  pub active_tab : Mode
  pub title : Text
  pub submit_text : Text
  pub submit_class : Text
  pub fields_hidden : Bool
  pub reset_hidden : Bool
  pub hint_hidden : Bool
  pub hint_text : Text
  pub anon_signup_hidden : Bool
  pub anon_signin_hidden : Bool
  pub email_label : Text
  pub email_type : Text
  pub placeholder : Text
  pub email_autocomplete : Text
  pub email_required : Bool
  pub password_hidden : Bool
  pub password_display_none : Bool
  pub password_required : Bool
  pub password_autocomplete : Text

show_anon_signup : View → View
show_anon_signup v = record v {
  title = text "Anonymous account";
  submit_text = text "Create anonymous account";
  submit_class = text "btn btn-accent btn-block";
  fields_hidden = true;
  reset_hidden = true;
  hint_hidden = true;
  anon_signup_hidden = true;
  anon_signin_hidden = true;
}

show_anon_signin : View → View
show_anon_signin v = record v {
  title = text "Sign in with Account ID";
  submit_text = text "Sign in";
  submit_class = text "btn btn-accent btn-block";
  fields_hidden = false;
  reset_hidden = true;
  hint_hidden = true;
  anon_signup_hidden = true;
  anon_signin_hidden = true;
  email_label = text "Account ID";
  email_type = text "text";
  placeholder = text "e.g. a1b2c3d4e5f6a7b8";
  email_autocomplete = text "off";
  email_required = true;
  password_required = false;
  password_display_none = true;
}

-- The last branch, for `signin` (`true`) and `signup`.
show_email : Bool → View → View
show_email is_sign_in v = record v {
  title = if is_sign_in then text "Sign in" else text "Create account";
  submit_text = if is_sign_in then text "Sign in" else text "Create account";
  submit_class = text "btn btn-primary btn-block";
  fields_hidden = false;
  reset_hidden = not is_sign_in;
  hint_hidden = false;
  anon_signup_hidden = is_sign_in;
  anon_signin_hidden = not is_sign_in;
  email_label = text "Email";
  email_type = text "email";
  placeholder = text "you@example.com";
  email_autocomplete = text "email";
  password_hidden = false;
  password_autocomplete = if is_sign_in then text "current-password" else text "new-password";
  hint_text =
      if is_sign_in
      then text "Don't have an account? Sign up"
      else text "Already have an account? Sign in";
}

unfoldable pub show_mode : Mode → View → View
unfolding show_anon_signup show_anon_signin show_email
show_mode anon_signup v = show_anon_signup v
show_mode anon_signin v = show_anon_signin v
show_mode signin v = show_email true v
show_mode signup v = show_email false v
