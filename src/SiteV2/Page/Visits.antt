-- ===== src/SiteV2/Page/Visits.antt =====
-- website/js-v2/account-app.js, lines 298-376: the account page with the handlers that wait, which go on
-- in any order with events in between.
use veritas_vpn.Base.{ℕ, false, not, Option, none, some, List, [], ◌∷◌, Text, Result}
use veritas_vpn.Base.Waiting.{task_at, without, add_task}
use veritas_vpn.Api.{Data}
use veritas_vpn.SiteV2.Session.{get_id_token}
use veritas_vpn.Site.Account.Async as V1Async
use veritas_vpn.Site.Account.Async.{Task, on, renew, go_on}
use veritas_vpn.SiteV2.Page.{Account, Step, begin, resume}

-- The page with the handlers that wait.
pub record Visit : Type 0 where
  pub account : Account
  pub tasks : List Task

abbrev pub join : List Task → Step → Visit
join tasks (a, task) = record { account = a; tasks = add_task task tasks }

-- What happens on the page: what happens on the first version's, and clicks on the button that shows
-- the sidebar on a phone, and on a link of the sidebar. (The `follow_link` that such a click leads to
-- is a happening of its own.)
pub data Happening : Type 0 where
  both : V1Async.Happening → Happening
  click_mobile_nav click_nav_link : Happening

module _ (locale_date : Text → Text) (payload_exp : Text → Option ℕ) where
  unfoldable pub go_on_with : Result Data → Option Task → ℕ → Visit → Visit
  unfolding resume
  go_on_with result none n v = v
  go_on_with result (some task) n v =
      join (without n v.tasks) (resume locale_date result task v.account)

  unfoldable pub happen_both : V1Async.Happening → Visit → Visit
  unfolding begin go_on_with get_id_token
  happen_both (on e) v = join v.tasks (begin locale_date e v.account)
  happen_both (renew now) v = record v {
    account = record account {
      page = record page { site = (get_id_token payload_exp now page.site).1 };
    };
  }
    where
      open v use {account}
      open v.account use {page}
  happen_both (go_on n result) v = go_on_with result (task_at n v.tasks) n v

  unfoldable pub happen : Happening → Visit → Visit
  unfolding happen_both
  happen (both h) v = happen_both h v
  happen click_mobile_nav v = record v {
    account = record account { sidebar_open = not account.sidebar_open };
  }
    where
      open v use {account}
  happen click_nav_link v = record v { account = record account { sidebar_open = false } }
    where
      open v use {account}

  unfoldable pub happen_all : List Happening → Visit → Visit
  unfolding happen
  happen_all [] v = v
  happen_all (h ∷ hs) v = happen_all hs (happen h v)
