-- ===== src/Site/Account/Keeps.antt =====
-- What the requests of the account page keep of the session: website/js/auth.js and billing.js.
use veritas_vpn.Base.{ℕ, ◌≡◌, ◌⊎◌, Option, none, Text, arith}
use veritas_vpn.Site.Session.{
  Site, current_user, restore_session, send_password_reset_email, get_id_token,
}
use veritas_vpn.Site.Session.Invariant.{IsConsistent}
use veritas_vpn.Site.Billing.{fetch_billing_status, start_premium_checkout, cancel_subscription}

-- The same session, or one without a user.
abbrev pub Keeps : Site → Site → Type 0
Keeps s s' = IsConsistent s' × ((current_user s' ≡ none) ⊎ (current_user s' ≡ current_user s))

pub reset-Keeps :
    (email : Text) (s : Site) → IsConsistent s → Keeps s (send_password_reset_email email s).1
unfolding send_password_reset_email current_user restore_session
reset-Keeps email s h = ground arith

module _ (payload_exp : Text → Option ℕ) (now : ℕ) where
  pub token-Keeps : (s : Site) → IsConsistent s → Keeps s (get_id_token payload_exp now s).1
  unfolding get_id_token current_user restore_session
  token-Keeps s h = ground arith

  pub fetch-Keeps : (s : Site) → IsConsistent s → Keeps s (fetch_billing_status payload_exp now s).1
  unfolding fetch_billing_status current_user restore_session
  fetch-Keeps s h = ground arith

  pub checkout-Keeps :
      (s : Site) → IsConsistent s → Keeps s (start_premium_checkout payload_exp now s).1
  unfolding start_premium_checkout current_user restore_session
  checkout-Keeps s h = ground arith

  pub cancel-Keeps : (s : Site) → IsConsistent s → Keeps s (cancel_subscription payload_exp now s).1
  unfolding cancel_subscription current_user restore_session
  cancel-Keeps s h = ground arith
