-- ===== src/Websocket/Manager/Reconnects/Examples.antt =====
-- websocket/manager.go: an outage between two connections.
use Prim.Native.Nat.{min}
use hypersdk_go.Prelude.Int.{pos, ◌≤ℤ◌}
use hypersdk_go.Prelude.{
  ℕ, ◌*◌, ◌/◌, ◌^◌, ◌<◌, ◌≡◌, refl, true, false, none, some, List, [], ◌∷◌, arith,
}
use hypersdk_go.Websocket.Reconnect.{settled, new_policy, delay}
use hypersdk_go.Websocket.Manager.Reconnects.{
  Round, Wait, selected, elapsed, woken, wait_reconnect, run_round, run_rounds, run_rounds-delay,
}

runs : Unit {0}
unfolding wait_reconnect run_round run_rounds
runs = tt

abbrev outage : Wait → Round
outage wait = record { subscribed = true; dialled = false; wait = wait }

-- A connection that was lost, a failed dial, a wait that a new subscription ended, and another
-- failed dial.
abbrev before : List Round
before =
    record { subscribed = true; dialled = true; wait = selected elapsed false }
    ∷ outage (selected elapsed false)
    ∷ outage (selected woken false)
    ∷ outage (selected elapsed false)
    ∷ []

asked_before : run_rounds (some 0) before ≡ (0 ∷ 1 ∷ 2 ∷ 2 ∷ [], some 3)
unfolding runs
asked_before = refl

-- A manager that is closed behind its wait returns, whatever the wait saw.
returned : run_rounds (some 4) (outage (selected elapsed true) ∷ before) ≡ (4 ∷ [], none)
unfolding runs
returned = refl

abbrev lowest : ℕ → ℕ
lowest n = 0

lowest-lt : (n : ℕ) → 0 < n → lowest n < n
lowest-lt n h = omega arith

next_round : (run_rounds (some 0) before).1 ≡ some 3
unfolding runs
next_round = refl

run_rounds-delay_example :
    let p = new_policy lowest (pos 1000000000) (pos 30000000000) none in
    ((run_round 3 (outage (selected elapsed false))).0 ≡ 3 ∷ [])
    × (pos (min 30000000000 (1000000000 * 2 ^ 3) / 2) ≤ℤ delay lowest (some p) (pos 3))
    × (delay lowest (some p) (pos 3) ≤ℤ pos (min 30000000000 (1000000000 * 2 ^ 3)))
unfolding wait_reconnect settled
run_rounds-delay_example =
    run_rounds-delay lowest (pos 1000000000) (pos 30000000000) 3 before
      (outage (selected elapsed false)) lowest-lt (omega arith) (omega arith) next_round refl refl
