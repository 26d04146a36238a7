-- ===== src/Site/Session/Invariant.antt =====
-- What holds of the session of website/js/auth.js between two operations, whatever the order of the
-- operations and whatever the server answers.
use veritas_vpn.Base.{ℕ, ◌≡◌, ◌⊎◌, Option, none, List, [], ◌∷◌, Text, arith, is_some}
use veritas_vpn.Api.{User}
use veritas_vpn.Site.Session.{
  LocalStorage, Site, Options, api, set_session, clear_session, restore_session,
  refresh_token_silently, api_with_auth, get_id_token, on_auth_state_changed, unsubscribe,
  sign_out_handler, send_password_reset_email,
}

-- The three items of the session are stored together or not at all.
abbrev pub IsWhole : LocalStorage → Type 0
IsWhole l = (is_some l.user ≡ is_some l.access_token) × (is_some l.user ≡ is_some l.refresh_token)

pub record IsConsistent (s : Site) : Type 0 where
  pub whole : IsWhole s.storage
  pub agrees : (s.current_user ≡ none) ⊎ (s.current_user ≡ restore_session s)

-- The operations that other code can call.
pub data Command : Type 0 where
  log_in : User → Option Text → Option Text → Command
  log_out : Command
  forget : Command
  refresh : Command
  request : Text → Options → Command
  request_with_auth : Text → Options → Command
  token : ℕ → Command
  subscribe : ℕ → Command
  leave : ℕ → Command
  reset : Text → Command

module _ (payload_exp : Text → Option ℕ) where
  unfoldable pub perform : Command → Site → Site
  perform (log_in user access again) s = set_session user access again s
  perform log_out s = sign_out_handler s
  perform forget s = clear_session s
  perform refresh s = (refresh_token_silently s).1
  perform (request path o) s = (api path o s).1
  perform (request_with_auth path o) s = (api_with_auth path o s).1
  perform (token now) s = (get_id_token payload_exp now s).1
  perform (subscribe fn) s = on_auth_state_changed fn s
  perform (leave fn) s = unsubscribe fn s
  perform (reset email) s = (send_password_reset_email email s).1

  unfoldable pub perform_all : List Command → Site → Site
  perform_all [] s = s
  perform_all (c ∷ cs) s = perform_all cs (perform c s)

refresh-IsConsistent : (s : Site) → IsConsistent s → IsConsistent (refresh_token_silently s).1
unfolding refresh_token_silently
refresh-IsConsistent s h = ground arith

api-IsConsistent :
    (path : Text) (o : Options) (s : Site) → IsConsistent s → IsConsistent (api path o s).1
unfolding api restore_session
api-IsConsistent path o s h = ground arith

module _ (payload_exp : Text → Option ℕ) where
  perform-IsConsistent :
      (c : Command) (s : Site) → IsConsistent s → IsConsistent (perform payload_exp c s)
  unfolding perform
  perform-IsConsistent (log_in user access again) s h =
      unfold set_session restore_session in ground arith
  perform-IsConsistent log_out s h = unfold sign_out_handler restore_session in ground arith
  perform-IsConsistent forget s h = unfold clear_session restore_session in ground arith
  perform-IsConsistent refresh s h = refresh-IsConsistent s h
  perform-IsConsistent (request path o) s h = api-IsConsistent path o s h
  perform-IsConsistent (request_with_auth path o) s h = unfold api_with_auth in ground arith
  perform-IsConsistent (token now) s h = unfold get_id_token in ground arith
  perform-IsConsistent (subscribe fn) s h = unfold on_auth_state_changed in ground arith
  perform-IsConsistent (leave fn) s h = unfold unsubscribe restore_session in ground arith
  perform-IsConsistent (reset email) s h =
      unfold send_password_reset_email restore_session in ground arith

  -- From a consistent session every sequence of operations leads to a consistent one: user and
  -- tokens are stored together or not at all, and the current user is none or the stored one.
  pub perform_all-IsConsistent :
      (cs : List Command) (s : Site) → IsConsistent s → IsConsistent (perform_all payload_exp cs s)
  unfolding perform_all
  perform_all-IsConsistent [] s h = h
  perform_all-IsConsistent (c ∷ cs) s h =
      perform_all-IsConsistent cs (perform payload_exp c s) (perform-IsConsistent c s h)
