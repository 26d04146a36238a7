-- ===== src/SiteV2/Page/Lockstep.antt =====
-- The two versions of the account page through the same events and answers.
use veritas_vpn.Base.{
  ℕ, ◌≡◌, refl, sym, ap, false, not, Option, none, some, List, [], ◌∷◌, Text, text, Result, ok,
  throw, or_text,
}
use mathlib.Core.Path.{subst}
use veritas_vpn.Base.Waiting.{task_at, without, add_task}
use veritas_vpn.Api.{Data, empty_data}
use veritas_vpn.Site.Session.{Site}
use veritas_vpn.Site.AccountView.{Page}
use veritas_vpn.Site.Account as V1
use veritas_vpn.Site.Account.{Kind, fine, error, billing_loaded}
use veritas_vpn.Site.Account.Actions as V1Actions
use veritas_vpn.Site.Account.Async as V1Async
use veritas_vpn.Site.Account.Async.{
  Task, loading, checking_out, cancelling, reloading, resetting, on, renew, go_on,
}
use veritas_vpn.Site.Billing.{checkout_url}
use veritas_vpn.SiteV2.Session.Versions.{at_service, get_id_token-at_service}
use veritas_vpn.SiteV2.Page.{
  Account, Step, tell, fail_with, checkout_started, refreshed, loaded, have_cancelled, have_reset,
  begin, resume, start,
}
use veritas_vpn.SiteV2.Page.Visits.{
  Visit, join, Happening, both, click_mobile_nav, click_nav_link, happen, happen_both, happen_all,
  go_on_with,
}
use veritas_vpn.SiteV2.Page.Twins.{
  AreTwins, Twins, facing, StepTwins, keep, render-Twins, begin-Twins,
}

-- What happens to the first version's page.
abbrev pub to_first : List Happening → List V1Async.Happening
to_first [] = []
to_first (both h ∷ hs) = h ∷ to_first hs
to_first (click_mobile_nav ∷ hs) = to_first hs
to_first (click_nav_link ∷ hs) = to_first hs

module _ (locale_date : Text → Text) where
  module _ (c : Option Page) (w : Account) (t : AreTwins locale_date c w.page.content)
      (b : w.boot_hidden ≡ not w.page.shell_hidden) where
    abbrev v : V1.Account
    v = facing c w

    fail_with-Twins :
        (message : Text)
        → Twins locale_date (V1.fail_with locale_date message v) (fail_with locale_date message w)
    unfolding V1.fail_with V1.show_flash fail_with tell
    fail_with-Twins message =
        render-Twins locale_date c
          (tell locale_date (or_text message (text "Something went wrong")) error w) t b

    checkout_started-Twins :
        (r : Result Text)
        → Twins locale_date (V1.checkout_started locale_date r v) (checkout_started locale_date r w)
    unfolding V1.checkout_started checkout_started
    checkout_started-Twins (ok url) = record { same = refl; contents = t; boot = b }
    checkout_started-Twins (throw message) = fail_with-Twins message

    refreshed-Twins :
        (r : Result Data)
        → Twins locale_date
            (V1.refreshed locale_date (billing_loaded r v))
            (refreshed locale_date r w)
    unfolding V1.refreshed refreshed billing_loaded
    refreshed-Twins (ok d) =
        render-Twins locale_date c (record w { page = (billing_loaded (ok d) w.page).1 }) t b
    refreshed-Twins (throw message) = fail_with-Twins message

    loaded-Twins :
        (r : Result Data)
        → Twins locale_date (V1.loaded locale_date (billing_loaded r v)) (loaded locale_date r w)
    unfolding V1.loaded V1.show_flash loaded billing_loaded tell
    loaded-Twins (ok d) =
        render-Twins locale_date c (record w { page = (billing_loaded (ok d) w.page).1 }) t b
    loaded-Twins (throw message) =
        let shown = or_text message (text "Could not load subscription status") in
        let told = tell locale_date shown error w in
        let unknown = record empty_data {
          is_premium = some false;
          status = some (text "unknown");
        } in
        render-Twins locale_date c
          (record told { page = record told.page { billing_status = some unknown } }) t b

    have_cancelled-Twins :
        (r : Result Data)
        → StepTwins locale_date
            (V1Async.have_cancelled locale_date r v)
            (have_cancelled locale_date r w)
    unfolding V1Async.have_cancelled V1.show_flash have_cancelled tell
    have_cancelled-Twins (ok d) = (record { same = refl; contents = t; boot = b }, refl)
    have_cancelled-Twins (throw message) = (fail_with-Twins message, refl)

    have_reset-Twins :
        (r : Result Data)
        → Twins locale_date (V1Async.have_reset locale_date r v) (have_reset locale_date r w)
    unfolding V1Async.have_reset V1.reset_sent V1.show_flash have_reset tell
    have_reset-Twins (ok d) =
        render-Twins locale_date c (tell locale_date (text "Password reset email sent.") fine w) t b
    have_reset-Twins (throw message) = fail_with-Twins message

    resume-Twins :
        (r : Result Data) (task : Task)
        → StepTwins locale_date (V1Async.resume locale_date r task v) (resume locale_date r task w)
    unfolding V1Async.resume resume
    resume-Twins r loading = (loaded-Twins r, refl)
    resume-Twins r checking_out = (checkout_started-Twins (checkout_url r), refl)
    resume-Twins r cancelling = have_cancelled-Twins r
    resume-Twins r reloading = (refreshed-Twins r, refl)
    resume-Twins r (resetting email) = (have_reset-Twins r, refl)

module _ (locale_date : Text → Text) (payload_exp : Text → Option ℕ) where
  -- The pages are twins, and the same handlers wait.
  abbrev pub VisitTwins : V1Async.Visit → Visit → Type 0
  VisitTwins v w = Twins locale_date v.account w.account × (v.tasks ≡ w.tasks)

  -- What the first version's visit is, beside the second's.
  abbrev beside : Option Page → Visit → V1Async.Visit
  beside c w = record { account = facing c w.account; tasks = w.tasks }

  VisitTwins-beside :
      (v : V1Async.Visit) (w : Visit) → VisitTwins v w → v ≡ beside v.account.content w
  VisitTwins-beside v w h = λ i. record { account = h.0.same i; tasks = h.1 i }

  join-Twins :
      (tasks : List Task) (s : V1.Account × Option Task) (s' : Step)
      → StepTwins locale_date s s'
      → VisitTwins (V1Async.join tasks s) (join tasks s')
  join-Twins tasks s s' h = (h.0, ap (λ task. add_task task tasks) h.1)

  module _ (c : Option Page) (w : Visit) (t : AreTwins locale_date c w.account.page.content)
      (b : w.account.boot_hidden ≡ not w.account.page.shell_hidden) where
    go_on_with-Twins :
        (r : Result Data) (task : Option Task) (n : ℕ)
        → VisitTwins
            (V1Async.go_on_with locale_date payload_exp r task n (beside c w))
            (go_on_with locale_date payload_exp r task n w)
    unfolding V1Async.go_on_with go_on_with
    go_on_with-Twins r none n = (keep locale_date c w.account t b, refl)
    go_on_with-Twins r (some task) n =
        join-Twins (without n w.tasks) (V1Async.resume locale_date r task (beside c w).account)
          (resume locale_date r task w.account) (resume-Twins locale_date c w.account t b r task)

    happen-beside :
        (h : V1Async.Happening)
        → VisitTwins
            (V1Async.happen locale_date payload_exp h (beside c w))
            (happen locale_date payload_exp (both h) w)
    unfolding V1Async.happen happen happen_both
    happen-beside (on e) =
        join-Twins w.tasks (V1Async.begin locale_date e (beside c w).account)
          (begin locale_date e w.account) (begin-Twins locale_date c w.account t b e)
    happen-beside (renew now) = (
      record {
        same =
            ap (λ r. record (facing c w.account) { site = r.1 })
              (get_id_token-at_service payload_exp now w.account.page.site);
        contents = t;
        boot = b;
      },
      refl,
    )
    happen-beside (go_on n r) = go_on_with-Twins r (task_at n w.tasks) n

  happen-Twins :
      (h : V1Async.Happening) (v : V1Async.Visit) (w : Visit)
      → VisitTwins v w
      → VisitTwins
          (V1Async.happen locale_date payload_exp h v)
          (happen locale_date payload_exp (both h) w)
  happen-Twins h v w k =
      subst
        (λ v.
          VisitTwins (V1Async.happen locale_date payload_exp h v)
            (happen locale_date payload_exp (both h) w))
        (sym (VisitTwins-beside v w k)) (happen-beside v.account.content w k.0.contents k.0.boot h)

  happen_all-Twins :
      (hs : List Happening) (v : V1Async.Visit) (w : Visit)
      → VisitTwins v w
      → VisitTwins
          (V1Async.happen_all locale_date payload_exp (to_first hs) v)
          (happen_all locale_date payload_exp hs w)
  unfolding V1Async.happen_all happen_all happen
  happen_all-Twins [] v w k = k
  happen_all-Twins (both h ∷ hs) v w k = happen_all-Twins hs _ _ (happen-Twins h v w k)
  happen_all-Twins (click_mobile_nav ∷ hs) v w k =
      happen_all-Twins hs v _
        (record { same = k.0.same; contents = k.0.contents; boot = k.0.boot }, k.1)
  happen_all-Twins (click_nav_link ∷ hs) v w k =
      happen_all-Twins hs v _
        (record { same = k.0.same; contents = k.0.contents; boot = k.0.boot }, k.1)

  -- From the same start, through any events, answers and renewals of the tokens, in any order, the two
  -- versions of the account page go in step: they keep the same session, have sent the same requests to
  -- renew the tokens, but for the address of the service before each path, wait for the same calls, tell the same message and
  -- plan, are led to the same places, and show the same page of the same user and status, each with its own
  -- views; the second one shows that it starts exactly until it shows its parts.
  pub versions_in_step :
      (hash : Text) (s : Site) (hs : List Happening)
      → VisitTwins
          (V1Async.happen_all locale_date payload_exp
            (to_first hs)
            (record { account = V1Actions.start hash (at_service s); tasks = [] }))
          (happen_all locale_date payload_exp hs (record { account = start hash s; tasks = [] }))
  unfolding V1Actions.start start AreTwins
  versions_in_step hash s hs =
      happen_all-Twins hs _ _ (record { same = refl; contents = tt; boot = refl }, refl)
