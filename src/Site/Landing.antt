-- ===== src/Site/Landing.antt =====
-- The public pages: website/js/config.js (the early access) and website/js/main.js (the menu, the
-- questions and the sign-in window, which only visitors with early access get).
pub mod Page
mod Tests
use veritas_vpn.Base.{
  ℕ, zero, suc, ◌≤◌, ◌≡◌, refl, Bool, true, false, not, ◌||◌, Option, List, [], ◌∷◌, ◌++◌, map,
  Text, text, text_eq, starts_with, arith, if◌then◌else◌,
}
use veritas_vpn.Site.SignIn.Settle.{init_auth_ui}
use veritas_vpn.Site.Billing.{Shop, refresh_status}

-- A cookie's name and value, and the query of the address.
pub record Visit : Type 0 where
  pub cookies : List (Text × Text)
  pub has_alpha : Bool
  pub has_query : Bool

abbrev pub alpha_cookie : Text
alpha_cookie = text "veritas_alpha"

set_cookie : Text → Text → List (Text × Text) → List (Text × Text)
unfolding text_eq
set_cookie name value [] = (name, value) ∷ []
set_cookie name value ((n, v) ∷ rest) =
    if text_eq n name then (name, value) ∷ rest else (n, v) ∷ set_cookie name value rest

-- `c.trim().startsWith('veritas_alpha=1')`, of the part `name=value` of `document.cookie`.
is_alpha_cookie : Text × Text → Bool
unfolding starts_with
is_alpha_cookie (n, v) = starts_with (n ++ (text "=" ++ v)) (alpha_cookie ++ text "=1")

some_alpha : List (Text × Text) → Bool
unfolding is_alpha_cookie
some_alpha [] = false
some_alpha (c ∷ rest) = is_alpha_cookie c || some_alpha rest

unfoldable pub is_alpha_enabled : Visit → Bool × Visit
unfolding some_alpha set_cookie
is_alpha_enabled v =
    if v.has_alpha
    then (
      true,
      record v {
        cookies = set_cookie alpha_cookie (text "1") v.cookies;
        has_alpha = false;
        has_query = false;
      },
    )
    else (some_alpha v.cookies, v)

-- A landing page: which questions are open, the menu, and the messages that it alerts.
pub record Landing : Type 0 where
  pub visit : Visit
  pub shop : Shop
  pub questions : List Bool
  pub menu_active : Bool
  pub alerts : List Text
  pub alpha : Bool

-- The start of the page: the sign-in window and billing only with early access. (The
-- window's first `veritas-auth-changed` is dispatched before billing listens to it.)
unfoldable pub start : (Text → Option ℕ) → ℕ → Bool → Bool → Landing → Landing
unfolding is_alpha_enabled init_auth_ui refresh_status
start payload_exp now asks_signin asks_signup l =
    let (alpha, visit) = is_alpha_enabled l.visit in
    let started : Shop = record shop { app = init_auth_ui asks_signin asks_signup shop.app } in
    record l {
      visit = visit;
      alpha = alpha;
      shop = if alpha then refresh_status payload_exp now started else l.shop;
    }
  where
    open l use {shop}

-- A click on a sign-in button of a page without early access.
unfoldable pub on_locked_click : Landing → Landing
on_locked_click l = record l {
  alerts =
      l.alerts
      ++ (text "VeritasVPN is in early access. Visit with an invite link to sign in." ∷ []);
}

unfoldable pub on_menu_toggle : Landing → Landing
on_menu_toggle l = record l { menu_active = not l.menu_active }

unfoldable pub on_menu_link : Landing → Landing
on_menu_link l = record l { menu_active = false }

abbrev is_open_at : List Bool → ℕ → Bool
is_open_at [] i = false
is_open_at (b ∷ bs) zero = b
is_open_at (b ∷ bs) (suc i) = is_open_at bs i

open_at : ℕ → List Bool → List Bool
open_at i [] = []
open_at zero (b ∷ bs) = true ∷ bs
open_at (suc i) (b ∷ bs) = b ∷ open_at i bs

-- A click on the question at a place: all are closed, and it is opened if it was not open.
unfoldable pub click_question : ℕ → List Bool → List Bool
unfolding open_at
click_question i qs =
    let closed = map (λ q. false) qs in if is_open_at qs i then closed else open_at i closed

unfoldable pub on_question : ℕ → Landing → Landing
unfolding click_question
on_question i l = record l { questions = click_question i l.questions }

-- How many questions are open.
abbrev pub count_open : List Bool → ℕ
count_open [] = 0
count_open (true ∷ qs) = suc (count_open qs)
count_open (false ∷ qs) = count_open qs

count_open-closed : (qs : List Bool) → count_open (map (λ q. false) qs) ≡ 0
count_open-closed [] = refl
count_open-closed (q ∷ qs) = count_open-closed qs

count_open-open_at : (i : ℕ) (qs : List Bool) → count_open (open_at i (map (λ q. false) qs)) ≤ 1
unfolding open_at
count_open-open_at i [] = omega arith
count_open-open_at zero (q ∷ qs) = omega (arith, count_open-closed qs)
count_open-open_at (suc i) (q ∷ qs) = count_open-open_at i qs

-- After a click on any question at most one is open, whatever was open before.
pub count_open-click_question : (i : ℕ) (qs : List Bool) → count_open (click_question i qs) ≤ 1
unfolding click_question
count_open-click_question i qs = ground (arith, count_open-closed qs, count_open-open_at i qs)

alpha_cookie_is_alpha : is_alpha_cookie (alpha_cookie, text "1") ≡ true
unfolding is_alpha_cookie text
alpha_cookie_is_alpha = refl

some_alpha-set_cookie :
    (cs : List (Text × Text)) → some_alpha (set_cookie alpha_cookie (text "1") cs) ≡ true
unfolding some_alpha set_cookie
some_alpha-set_cookie [] = ground (arith, alpha_cookie_is_alpha)
some_alpha-set_cookie ((n, v) ∷ cs) =
    ground (arith, alpha_cookie_is_alpha, some_alpha-set_cookie cs)

-- After a visit with `?alpha` early access lasts: the next page, whose address has no query, has it
-- too, and the first visit leaves the address without its query.
pub is_alpha_enabled_lasts :
    (v : Visit)
    → v.has_alpha ≡ true
    → ((is_alpha_enabled v).0 ≡ true)
      × ((is_alpha_enabled (is_alpha_enabled v).1).0 ≡ true)
      × ((is_alpha_enabled v).1.has_query ≡ false)
unfolding is_alpha_enabled
is_alpha_enabled_lasts v h = ground (arith, some_alpha-set_cookie v.cookies)

-- Without early access the start of the page leaves session, window and plan as they were, whatever
-- the query asks for.
pub start_locked :
    (payload_exp : Text → Option ℕ) (now : ℕ) (asks_signin asks_signup : Bool) (l : Landing)
    → (is_alpha_enabled l.visit).0 ≡ false
    → ((start payload_exp now asks_signin asks_signup l).shop ≡ l.shop)
      × ((start payload_exp now asks_signin asks_signup l).alpha ≡ false)
unfolding start
start_locked payload_exp now asks_signin asks_signup l h = ground arith
