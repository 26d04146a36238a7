-- ===== src/SiteV2/Store.antt =====
-- The stored session and the listeners of website/js-v2/auth.js, lines 11-49, 122-141 and 640-657, on the state
-- of Site/Session.
use veritas_vpn.Base.{
  ℕ, ◌==◌, Bool, true, Option, none, some, List, [], ◌∷◌, ◌++◌, map, Text, text_of, or_null,
  is_some, if◌then◌else◌,
}
use veritas_vpn.Api.{User}
use veritas_vpn.Site.Session.{UserText, json, null_text, malformed, Site}

unfoldable pub is_logged_in : Site → Bool
is_logged_in s = is_some (or_null s.storage.access_token)

unfoldable pub set_session : User → Option Text → Option Text → Site → Site
set_session user access refresh s = record s {
  storage = record {
    user = some (json user);
    access_token = some (text_of access);
    refresh_token = some (text_of refresh);
  };
  current_user = some user;
}

unfoldable pub clear_session : Site → Site
clear_session s = record s {
  storage = record { user = none; access_token = none; refresh_token = none };
  current_user = none;
}

user_of : Option UserText → Option User
user_of none = none
user_of (some (json u)) = some u
user_of (some null_text) = none
user_of (some malformed) = none

unfoldable pub restore_session : Site → Option User
unfolding user_of
restore_session s = user_of s.storage.user

-- `auth.currentUser`.
unfoldable pub current_user : Site → Option User
unfolding restore_session
current_user s = elim s.current_user [ none ↦ restore_session s | some u ↦ some u ]

-- `listeners.forEach((fn) => fn(user))`, as the calls that it makes.
unfoldable pub notify_listeners : Option User → Site → Site
notify_listeners user s = record s {
  auth_ready = true;
  calls = s.calls ++ map (λ fn. (fn, user)) s.listeners;
}

-- `onAuthStateChanged`, and the function that it returns.
unfoldable pub on_auth_state_changed : ℕ → Site → Site
unfolding restore_session
on_auth_state_changed fn s =
    let pushed = record s { listeners = s.listeners ++ (fn ∷ []) } in
    if s.auth_ready
    then record pushed { calls = s.calls ++ ((fn, s.current_user) ∷ []) }
    else elim (restore_session s) [
      | none ↦ pushed
      | some user ↦ record pushed {
        current_user = some user;
        calls = s.calls ++ ((fn, some user) ∷ []);
      }
    ]

unfoldable pub remove : ℕ → List ℕ → List ℕ
remove fn [] = []
remove fn (l ∷ ls) = let rest = remove fn ls in if l == fn then rest else l ∷ rest

unfoldable pub unsubscribe : ℕ → Site → Site
unfolding remove
unsubscribe fn s = record s { listeners = remove fn s.listeners }

unfoldable pub sign_out_handler : Site → Site
unfolding clear_session notify_listeners
sign_out_handler s = notify_listeners none (record (clear_session s) { current_user = none })
