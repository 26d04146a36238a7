-- ===== src/Site/Modes.antt =====
-- The modes of the sign-in window and what each shows: `setMode` of website/js/auth.js, lines 254-362,
-- with the elements that it sets. The elements that the code looks up are there, but for the two
-- that some pages lack: the note on anonymous accounts and the view that asks for a password reset.
use veritas_vpn.Base.{Bool, true, false, not, Option, Text, text, if◌then◌else◌}
use mathlib.Core.Option

pub data Mode : Type 0 where
  signin signup anon_signup anon_signin forgot : Mode

abbrev pub is_signin : Mode → Bool
is_signin signin = true
is_signin m = false

-- `mode.startsWith('anon-')`.
abbrev pub is_anon : Mode → Bool
is_anon anon_signup = true
is_anon anon_signin = true
is_anon m = false

-- The tab that is marked: each of the two names the mode that it stands for.
abbrev pub tab_of : Mode → Mode
tab_of anon_signup = signup
tab_of anon_signin = signin
tab_of m = m

-- What the window shows. `note_hidden` and `forgot_hidden` are `none` on a page without them.
pub record View : Type 0 where
  pub active_tab : Mode
  pub title : Text
  pub submit_text : Text
  pub submit_class : Text
  pub submit_hidden : Bool
  pub form_hidden : Bool
  pub fields_hidden : Bool
  pub reset_hidden : Bool
  pub hint_hidden : Bool
  pub hint_text : Text
  pub anon_signup_hidden : Bool
  pub anon_signin_hidden : Bool
  pub note_hidden : Option Bool
  pub tabs_hidden : Bool
  pub brand_hidden : Bool
  pub divider_hidden : Bool
  pub forgot_hidden : Option Bool
  pub email_label : Text
  pub email_type : Text
  pub placeholder : Text
  pub email_autocomplete : Text
  pub email_required : Bool
  pub password_hidden : Bool
  pub password_required : Bool
  pub password_autocomplete : Text

show_anon_signup : View → View
show_anon_signup v = record v {
  title = text "Anonymous account";
  submit_text = text "Create anonymous account";
  submit_class = text "btn btn-accent btn-block";
  fields_hidden = true;
  reset_hidden = true;
  hint_hidden = false;
  hint_text = text "Sign in with email and password";
  anon_signup_hidden = true;
  anon_signin_hidden = true;
  note_hidden = Option.map (λ h. false) v.note_hidden;
}

show_anon_signin : View → View
show_anon_signin v = record v {
  title = text "Sign in with Account ID";
  submit_text = text "Sign in";
  submit_class = text "btn btn-accent btn-block";
  fields_hidden = false;
  reset_hidden = true;
  hint_hidden = false;
  hint_text = text "Sign in with email and password";
  anon_signup_hidden = true;
  anon_signin_hidden = true;
  email_label = text "Account ID";
  email_type = text "text";
  placeholder = text "e.g. a1b2c3d4e5f6a7b8";
  email_autocomplete = text "off";
  email_required = true;
  password_required = false;
  password_hidden = true;
}

show_forgot : View → View
show_forgot v = record v {
  title = text "Reset password";
  form_hidden = true;
  tabs_hidden = true;
  brand_hidden = true;
  hint_hidden = true;
  anon_signup_hidden = true;
  anon_signin_hidden = true;
  divider_hidden = true;
  forgot_hidden = Option.map (λ h. false) v.forgot_hidden;
}

-- The last branch, for `signin` (`true`) and `signup`.
show_email : Bool → View → View
show_email is_sign_in v = record v {
  forgot_hidden = Option.map (λ h. true) v.forgot_hidden;
  form_hidden = false;
  tabs_hidden = false;
  brand_hidden = false;
  divider_hidden = false;
  submit_hidden = false;
  title = if is_sign_in then text "Sign in" else text "Create account";
  submit_text = if is_sign_in then text "Sign in" else text "Create account";
  submit_class = text "btn btn-primary btn-block";
  fields_hidden = false;
  reset_hidden = not is_sign_in;
  hint_hidden = false;
  anon_signup_hidden = is_sign_in;
  anon_signin_hidden = not is_sign_in;
  note_hidden = Option.map (λ h. true) v.note_hidden;
  email_label = text "Email";
  email_type = text "email";
  placeholder = text "you@example.com";
  email_autocomplete = text "email";
  password_required = true;
  password_hidden = false;
  password_autocomplete = if is_sign_in then text "current-password" else text "new-password";
  hint_text =
      if is_sign_in
      then text "Don't have an account? Sign up"
      else text "Already have an account? Sign in";
}

unfoldable pub show_mode : Mode → View → View
unfolding show_anon_signup show_anon_signin show_forgot show_email
show_mode anon_signup v = show_anon_signup v
show_mode anon_signin v = show_anon_signin v
show_mode forgot v = show_forgot v
show_mode signin v = show_email true v
show_mode signup v = show_email false v
