-- ===== src/Desktop/RaceTests.antt =====
-- The desktop client's handlers, interleaved, at concrete states.
use veritas_vpn.Base.{
  text_of, some, ◌≡◌, refl, true, false, none, [], ◌∷◌, text, ◌≤◌, ℕ, zero, suc, ap, arith,
}
use veritas_vpn.Base.Net.{Answer, answered, rejected, parsed}
use veritas_vpn.Desktop.Auth.{Reply}
use veritas_vpn.Desktop.Connect.{Native}
use veritas_vpn.Desktop.View.{shows_form}
use veritas_vpn.Desktop.Async.{bringing_up, dropping}
use veritas_vpn.Desktop.World.{
  World, Event, click_connect, click_disconnect, click_sign_out, go_on, happen, here, next,
}
use veritas_vpn.Desktop.Races.{attempts, flag, Run-attempts}
use veritas_vpn.Base.Fairness.{after, IsFair}
use veritas_vpn.Desktop.Liveness.{happen_at, waits, settles, connecting_ends}
use veritas_vpn.Desktop.Settling.{Turn, settled, settle_ends}
use veritas_vpn.Desktop.SignedOut.{
  IsSignedOut, happen_all, sign_out_lasts, sign_out_while_connecting,
}
use veritas_vpn.Api.{Data}
use veritas_vpn.Desktop.Attempt.{Desktop, done, signup, account_id}
use veritas_vpn.Desktop.Samples.{
  desk, working, failing, peer, good, connected_desk, reply_of, tokens,
}

abbrev granted : Answer Reply
granted = answered (record { status = 200; body = parsed (reply_of tokens) })

abbrev idle : World
idle = record { desktop = desk; tasks = [] }

abbrev new_account : Data
new_account = record tokens { account_id = some (text "a1") }

abbrev registering_desk : Desktop
registering_desk = record desk { user = none; mode = signup; method = account_id }

-- The user signs out while the token is refreshed, and the refresh is granted after that.
sign_out_lasts_example :
    IsSignedOut
      (happen_all
        (go_on 0 working granted ∷ go_on 0 working granted ∷ [])
        (happen click_sign_out (happen click_connect idle))).desktop
unfolding happen shows_form text
sign_out_lasts_example =
    sign_out_lasts (happen click_connect idle)
      (go_on 0 working granted ∷ go_on 0 working granted ∷ []) refl refl

Run-attempts_example :
    (attempts (happen (go_on 0 working granted) (happen click_connect idle)).tasks
      ≡ flag (happen (go_on 0 working granted) (happen click_connect idle)).desktop.connecting)
    × (attempts (happen (go_on 0 working granted) (happen click_connect idle)).tasks ≤ 1)
Run-attempts_example =
    Run-attempts desk refl (next (go_on 0 working granted) (next click_connect here))

abbrev always : World → Turn
always w = record { number = 1; native = failing; answer = granted }

settle_ends_example :
    ((settled always (happen click_connect idle)).tasks ≡ [])
    × ((settled always (happen click_connect idle)).desktop.connecting ≡ false)
settle_ends_example = settle_ends desk always refl (next click_connect here)

abbrev signed_out_late : World
signed_out_late =
    happen (go_on 0 working granted)
      (happen click_sign_out (record { desktop = desk; tasks = bringing_up (text "t1") peer ∷ [] }))

sign_out_while_connecting_example :
    (signed_out_late.desktop.connected ≡ true)
    × (signed_out_late.desktop.user ≡ none)
    × (shows_form signed_out_late.desktop ≡ true)
    × (happen click_disconnect signed_out_late ≡ signed_out_late)
unfolding shows_form
sign_out_while_connecting_example =
    sign_out_while_connecting desk [] working granted (text "t1") peer good refl refl refl refl

abbrev peer_made : Answer Reply
peer_made = answered (record { status = 201; body = parsed peer })

-- A run to such a state: disconnect, and connect again while the removal of the old peer waits.
reconnecting :
    (happen_all
      (click_disconnect
        ∷ go_on 0 working granted
        ∷ click_connect
        ∷ go_on 0 working granted
        ∷ go_on 0 working granted
        ∷ go_on 0 working granted
        ∷ go_on 0 working peer_made
        ∷ [])
      (record { desktop = connected_desk; tasks = [] })).tasks
    ≡ bringing_up (text "t2") peer ∷ dropping ∷ []
unfolding happen_all happen shows_form text text_of
reconnecting = refl

-- The user connects, and each promise is settled in turn: the token stays, and there is no WireGuard.
abbrev unavailable : Native
unavailable = record working { wireguard_available = done false }

abbrev in_turn : ℕ → Event
in_turn zero = click_connect
in_turn (suc n) = go_on 0 unavailable (rejected [])

abbrev gave_up : World
gave_up = after (happen_at in_turn) 3 idle

gave_up-off : (n : ℕ) → after (happen_at in_turn) (suc (suc (suc n))) idle ≡ gave_up
unfolding happen text
gave_up-off zero = refl
gave_up-off (suc n) = ap (happen (go_on 0 unavailable (rejected []))) (gave_up-off n)

in_turn-IsFair : IsFair (happen_at in_turn) waits (settles in_turn) idle
unfolding happen text
in_turn-IsFair zero on = ground arith
in_turn-IsFair (suc zero) on = (1, omega arith, refl)
in_turn-IsFair (suc (suc zero)) on = (2, omega arith, refl)
in_turn-IsFair (suc (suc (suc n))) on = ground (arith, gave_up-off n)

connecting_ends_example :
    (m : ℕ) × (1 ≤ m) × ((after (happen_at in_turn) m idle).desktop.connecting ≡ false)
connecting_ends_example = connecting_ends in_turn desk refl in_turn-IsFair 1
