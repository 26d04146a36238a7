-- ===== src/Site/SignIn/Login.antt =====
-- Signing in and out through the window: website/js/auth.js, lines 414-435 and 519-659.
use veritas_vpn.Base.{
  ◌≡◌, ◌∷◌, true, false, not, ◌&&◌, Option, none, some, [], Text, text, text_of, arith, starts_with,
  Result, ok, throw, if◌then◌else◌,
}
use veritas_vpn.Base.Net.{receive}
use veritas_vpn.Api.{Data, anonymous_user}
use veritas_vpn.Site.Session.{json, read_answer, restore_session}
use veritas_vpn.Site.Session.Refresh.{no_storage}
use veritas_vpn.Site.Errors.{map_auth_error}
use veritas_vpn.Site.Modes.{signin}
use veritas_vpn.Site.SignIn.{App, Pending, identifying, entering, account_path}
use veritas_vpn.Site.SignIn.Handlers.{on_close, on_sign_out}
use veritas_vpn.Site.SignIn.Settle.{settle, email_user, init_auth_ui}

-- What the server says to the request that waits.
abbrev pub reply : App → Result Data
reply a = read_answer (receive a.site.net).0

-- Where a successful sign-in leads: to the account page if the page redirects after sign-in, the
-- window still means to redirect and the page is not an account page already; else nowhere.
abbrev pub destination : App → Option Text
destination a =
    if a.redirect_after_auth
      && (a.form.pending_redirect && not (starts_with a.pathname (text "/account")))
    then some account_path
    else a.href

module _ (a : App) (d : Data) (granted : reply a ≡ ok d) where
  -- When the server grants a sign-in or a registration by email, the address that was submitted and
  -- the two tokens are stored, the window is closed and no longer busy, shows no error, and the page
  -- goes where `destination` says.
  pub settle_entering :
      (email : Text)
      → a.pending ≡ entering email ∷ []
      → ((settle 0 a).site.storage ≡ record {
        user = some (json (email_user email d));
        access_token = some (text_of d.access_token);
        refresh_token = some (text_of d.refresh_token);
      })
        × ((settle 0 a).site.current_user ≡ some (email_user email d))
        × ((settle 0 a).form.is_open ≡ false)
        × ((settle 0 a).form.busy ≡ false)
        × ((settle 0 a).form.error ≡ [])
        × ((settle 0 a).form.logged_in_shown ≡ true)
        × ((settle 0 a).href ≡ destination a)
        × ((settle 0 a).pending ≡ [])
  unfolding settle
  settle_entering email h = ground arith

  -- When the server grants a sign-in by account ID, the anonymous user and the two tokens are stored,
  -- the window is closed and not busy, and the page goes where `destination` says.
  pub settle_identifying :
      a.pending ≡ identifying ∷ []
      → ((settle 0 a).site.storage ≡ record {
        user = some (json (anonymous_user d));
        access_token = some (text_of d.access_token);
        refresh_token = some (text_of d.refresh_token);
      })
        × ((settle 0 a).form.is_open ≡ false)
        × ((settle 0 a).form.busy ≡ false)
        × ((settle 0 a).href ≡ destination a)
  unfolding settle
  settle_identifying h = ground arith

-- When a request of the window fails, for whatever reason, the stored session, the current user and
-- the address stay as they are, the window stays open or closed as it was, and it is no longer busy.
-- The message of the failure is shown as `mapAuthError` words it.
pub settle_failed :
    (a : App) (p : Pending) (message : Text)
    → a.pending ≡ p ∷ []
    → reply a ≡ throw message
    → ((settle 0 a).site.storage ≡ a.site.storage)
      × ((settle 0 a).site.current_user ≡ a.site.current_user)
      × ((settle 0 a).href ≡ a.href)
      × ((settle 0 a).form.is_open ≡ a.form.is_open)
      × ((settle 0 a).form.busy ≡ false)
      × ((settle 0 a).form.error ≡ map_auth_error message)
unfolding settle
settle_failed a p message h refused = ground arith

-- Closing the window while a sign-in waits does not stop the sign-in, only the redirect: the user is
-- stored all the same, and the page stays.
pub close_keeps_sign_in :
    (a : App) (email : Text) (d : Data)
    → a.pending ≡ entering email ∷ []
    → reply a ≡ ok d
    → ((settle 0 (on_close a)).site.storage ≡ (settle 0 a).site.storage)
      × ((settle 0 (on_close a)).href ≡ a.href)
unfolding settle on_close
close_keeps_sign_in a email d h granted = ground arith

-- Signing out leaves nothing of the session, and leads home exactly from the account pages.
pub on_sign_out_clears :
    (a : App)
    → ((on_sign_out a).site.storage ≡ no_storage)
      × ((on_sign_out a).site.current_user ≡ none)
      × ((on_sign_out a).form.logged_in_shown ≡ false)
      × ((on_sign_out a).form.pending_redirect ≡ false)
      × ((on_sign_out a).href
          ≡ (if starts_with a.pathname (text "/account") then some (text "/") else a.href))
unfolding on_sign_out
on_sign_out_clears a = ground arith

-- On a page opened with `?signup=1` and with no stored user, the window is open in the mode that
-- signs in, not in the one that signs up.
pub init_auth_ui_signup :
    (a : App)
    → restore_session a.site ≡ none
    → ((init_auth_ui false true a).form.is_open ≡ true)
      × ((init_auth_ui false true a).form.mode ≡ signin)
unfolding init_auth_ui
init_auth_ui_signup a h = ground arith
