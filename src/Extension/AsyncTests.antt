-- ===== src/Extension/AsyncTests.antt =====
-- The extension's handlers, overlapping, at concrete states.
use veritas_vpn.Base.{◌≡◌, refl, true, false, not, ◌||◌, none, some, [], ◌∷◌, text, trim, is_some}
use veritas_vpn.Extension.Auth.{default_proxy, get_session}
use veritas_vpn.Extension.Proxy.{on_alarm, proxy_config, proxy_configured}
use veritas_vpn.Extension.Popup.{Popup}
use veritas_vpn.Extension.Safety.{click_toggle, click_sign_out, submit}
use veritas_vpn.Extension.World.{World, on, go_on, happen_all}
use veritas_vpn.Extension.Submissions.{submissions, disabled_count, happen_all-submissions}
use veritas_vpn.Extension.Settling.{settled, settled_ends}
use veritas_vpn.Extension.Overlaps.{routed, marked}
use veritas_vpn.Extension.Recovery.{
  Run, here, next, unmarking, alarm_recovers, late_disconnect, overtaking, sign_out_overtakes,
}
use veritas_vpn.Extension.Samples.{ann, idle, popup}

abbrev at_rest : World
at_rest = record { popup = popup; tasks = [] }

abbrev connected_popup : Popup
connected_popup = record popup {
  browser = record idle {
    storage = record (idle.storage) { connected = some true };
    rules = some default_proxy;
  };
}

abbrev signed_out : World
signed_out = record { popup = record popup { auth_hidden = false }; tasks = [] }

overtaken : Run at_rest (happen_all overtaking at_rest)
unfolding happen_all text trim
overtaken =
    next (go_on 0)
      (next (go_on 0)
        (next (go_on 0)
          (next (go_on 1)
            (next (go_on 1)
              (next (go_on 0)
                (next (go_on 0)
                  (next (on click_sign_out)
                    (next (go_on 0) (next (go_on 0) (next (on click_toggle) here refl) refl) refl)
                    refl)
                  refl)
                refl)
              refl)
            refl)
          refl)
        refl)
      refl

alarm_recovers_example :
    let w = happen_all overtaking at_rest in
    (not (routed w.popup.browser) || marked w.popup.browser ≡ true)
    × (is_some w.popup.browser.storage.user || not (routed (on_alarm w.popup.browser)) ≡ true)
    × (is_some w.popup.browser.storage.user || not (marked (on_alarm w.popup.browser)) ≡ true)
unfolding happen_all text trim
alarm_recovers_example = alarm_recovers popup refl refl overtaken refl

sign_out_overtakes_example :
    let w = happen_all overtaking at_rest in
    (w.tasks ≡ [])
    × (w.popup.browser.storage.user ≡ none)
    × (w.popup.browser.rules ≡ some (proxy_config (get_session popup.browser).proxy))
    × (marked w.popup.browser ≡ true)
    × (w.popup.main_hidden ≡ true)
    × ((on_alarm w.popup.browser).rules ≡ none)
unfolding get_session proxy_configured text trim
sign_out_overtakes_example = sign_out_overtakes popup ann refl refl refl refl refl

late_disconnect_example :
    let w =
      happen_all
        (on click_toggle
          ∷ go_on 0
          ∷ go_on 0
          ∷ go_on 0
          ∷ go_on 0
          ∷ go_on 0
          ∷ go_on 0
          ∷ go_on 0
          ∷ go_on 0
          ∷ [])
        (record { popup = popup; tasks = unmarking ∷ [] }) in
    (w.tasks ≡ [])
    × (w.popup.browser.rules ≡ some (proxy_config (get_session popup.browser).proxy))
    × (marked w.popup.browser ≡ false)
    × (w.popup.status.pressed ≡ false)
    × (w.popup.browser.badge_text ≡ [])
unfolding get_session proxy_configured text trim
late_disconnect_example = late_disconnect popup ann refl refl refl refl

-- Three clicks on the toggle of a connected browser: the second disconnect begins before the first one has
-- taken the mark away, and the third click connects between the two.
clicks_reach_it :
    (happen_all
      (on click_toggle
        ∷ on click_toggle
        ∷ go_on 1
        ∷ go_on 1
        ∷ go_on 1
        ∷ go_on 1
        ∷ go_on 1
        ∷ go_on 0
        ∷ [])
      (record { popup = connected_popup; tasks = [] })).tasks
    ≡ unmarking ∷ []
unfolding happen_all text trim
clicks_reach_it = refl

happen_all-submissions_example :
    submissions (happen_all (on submit ∷ go_on 0 ∷ on submit ∷ []) signed_out).tasks
    ≡ disabled_count (happen_all (on submit ∷ go_on 0 ∷ on submit ∷ []) signed_out).popup
unfolding happen_all text trim
happen_all-submissions_example =
    happen_all-submissions (on submit ∷ go_on 0 ∷ on submit ∷ []) signed_out refl

-- Two clicks on the toggle and a sign-out, and then whatever waits, the latest first.
settled_ends_example :
    let v =
      settled
        (λ w. 0)
        (happen_all
          (on click_toggle ∷ on click_toggle ∷ go_on 1 ∷ on click_sign_out ∷ [])
          (record { popup = connected_popup; tasks = [] })) in
    (v.tasks ≡ []) × (v.popup.submit_disabled ≡ false)
settled_ends_example =
    settled_ends (on click_toggle ∷ on click_toggle ∷ go_on 1 ∷ on click_sign_out ∷ [])
      connected_popup (λ w. 0) refl
