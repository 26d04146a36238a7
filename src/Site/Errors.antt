-- ===== src/Site/Errors.antt =====
-- `mapAuthError` of website/js/auth.js, lines 181-191.
use veritas_vpn.Base.{
  ◌≡◌, ◌++◌, Text, text, or_text, includes, includes-append, to_lower_case, arith, if◌then◌else◌,
}

unfoldable pub map_auth_error : Text → Text
map_auth_error message =
    let msg = to_lower_case message in
    if includes msg (text "email")
    then text "Invalid email address."
    else if includes msg (text "password")
    then (if includes msg (text "6")
        then text "Password must be at least 6 characters."
        else text "Incorrect email or password.")
    else if includes msg (text "already exists")
    then text "An account already exists with this email."
    else if includes msg (text "account_id")
    then text "Account ID not found."
    else or_text message (text "Something went wrong. Please try again.")

-- Every message that names an email, in any case and whatever else it says, is shown as an invalid
-- address: also the server's refusal of a wrong password.
pub map_auth_error-email :
    (before after : Text) (message : Text)
    → to_lower_case message ≡ before ++ (text "email" ++ after)
    → map_auth_error message ≡ text "Invalid email address."
unfolding map_auth_error
map_auth_error-email before after message h =
    ground (arith, includes-append before (text "email") after)
