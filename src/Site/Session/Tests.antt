-- ===== src/Site/Session/Tests.antt =====
-- The session of the site at concrete states.
use veritas_vpn.Base.{
  ok, throw, Result, map, ◌++◌, ℕ, ◌≡◌, refl, false, none, some, [], ◌∷◌, Text, text, List, Option,
  arith, length, includes, status_text,
}
use veritas_vpn.Base.Net.{answered, parsed, get}
use veritas_vpn.Api.{User, Data, empty_data}
use veritas_vpn.Site.Session.{Site, json, api_with_auth, restore_session, Options}
use veritas_vpn.Site.Session.Refresh.{no_storage, Sends, api_with_auth_sends}
use veritas_vpn.Site.Session.Invariant.{
  IsConsistent, Command, log_in, log_out, refresh, token, subscribe, perform_all,
  perform_all-IsConsistent,
}
use veritas_vpn.Site.Session.Races.{
  Refreshing, begin_refresh, end_refresh, sign_out, refresh_request, sign_out_wins, two_refreshes,
}

abbrev ann : User
ann = record {
  email = some (text "ann@x.org");
  account_id = some (text "a1");
  is_anonymous = false;
}

abbrev tokens : Data
tokens = record empty_data { access_token = some (text "t2"); refresh_token = some (text "r2") }

abbrev site : Site
site = record {
  storage = record {
    user = some (json ann);
    access_token = some (text "h.p_.s");
    refresh_token = some (text "r1");
  };
  current_user = none;
  auth_ready = false;
  listeners = 1 ∷ 2 ∷ [];
  calls = [];
  net = record {
    answers = answered (record { status = 200; body = parsed tokens }) ∷ [];
    sent = [];
  };
}

abbrev waiting_site : Refreshing
waiting_site = record { site = site; waiting = [] }

-- The server refuses the refresh.
abbrev refused : Site
refused = record site {
  net = record {
    answers = answered (record { status = 401; body = parsed empty_data }) ∷ [];
    sent = [];
  };
}

-- The payload `p/` expires at 1000.
abbrev payload_exp : Text → Option ℕ
payload_exp part = some 1000

abbrev plain : Options
plain = record { method = get; authorization = none; body = [] }

-- A request that is refused with the status 401 is retried after a refresh.
retried : length (api_with_auth (text "/x") plain refused).1.net.sent ≡ 2
unfolding api_with_auth text includes status_text
retried = refl

api_with_auth_sends_example :
    Sends
      (text "/x")
      plain
      site
      (api_with_auth (text "/x") plain site).1
      (api_with_auth (text "/x") plain site).1.net.sent
api_with_auth_sends_example = api_with_auth_sends (text "/x") plain site

abbrev commands : List Command
commands = log_in ann (some (text "t")) none ∷ token 990 ∷ subscribe 3 ∷ log_out ∷ refresh ∷ []

site-IsConsistent : IsConsistent site
site-IsConsistent = ground arith

perform_all-IsConsistent_example : IsConsistent (perform_all payload_exp commands site)
perform_all-IsConsistent_example =
    perform_all-IsConsistent payload_exp commands site site-IsConsistent

sign_out_wins_example :
    ((end_refresh (ok tokens) (sign_out (begin_refresh waiting_site))).site.storage ≡ no_storage)
    × ((end_refresh (ok tokens) (sign_out (begin_refresh waiting_site))).site.current_user ≡ none)
    × (restore_session (end_refresh (ok tokens) (sign_out (begin_refresh waiting_site))).site
        ≡ none)
sign_out_wins_example = sign_out_wins waiting_site (ok tokens)

-- A service that grants one refresh for all tokens.
abbrev serve : List Text → Text → Result Data
serve [] rt = ok tokens
serve (t ∷ used) rt = throw (text "invalid refresh token")

abbrev both : Refreshing
both = begin_refresh (begin_refresh waiting_site)

two_refreshes_example :
    (both.site.net.sent
      ≡ (site.net.sent ++ (refresh_request (text "r1") ∷ [])) ++ (refresh_request (text "r1") ∷ []))
    × ((end_refresh (ok tokens) both).site.current_user ≡ some ann)
    × ((end_refresh
          (throw (text "invalid refresh token"))
          (end_refresh (ok tokens) both)).site.storage
        ≡ no_storage)
    × ((end_refresh
          (throw (text "invalid refresh token"))
          (end_refresh (ok tokens) both)).site.current_user
        ≡ none)
    × ((end_refresh
          (throw (text "invalid refresh token"))
          (end_refresh (ok tokens) both)).site.calls
        ≡ site.calls ++ map (λ fn. (fn, none)) site.listeners)
unfolding restore_session text
two_refreshes_example =
    two_refreshes serve (text "invalid refresh token") (λ used rt. refl) site (text "r1") ann tokens
      [] refl refl refl
