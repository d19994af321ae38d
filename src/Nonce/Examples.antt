-- ===== src/Nonce/Examples.antt =====
-- nonce/manager.go: runs.
use hypersdk_go.Prelude.Maps.{lookup, insert}
use hypersdk_go.Prelude.{ℕ, ◌≡◌, refl, none, some, List, [], ◌∷◌, canceled, arith, nat_eq}
use hypersdk_go.Nonce.{MonotonicManager, new_monotonic_manager, next}
use hypersdk_go.Nonce.Monotonic.{Call, Ascending, EachAnswered, nonces, run, run-new-Ascending}

-- Two addresses, a clock that steps back, and one call whose context is done.
abbrev history : List (Call ℕ)
history =
    record { context = none; now = 1000; address = 1 }
    ∷ record { context = none; now = 1000; address = 2 }
    ∷ record { context = none; now = 990; address = 1 }
    ∷ record { context = some canceled; now = 1001; address = 1 }
    ∷ record { context = none; now = 1001; address = 1 }
    ∷ []

two_addresses : nonces 1 (run history new_monotonic_manager).0 ≡ 1000 ∷ 1001 ∷ 1002 ∷ []
unfolding nonces run next new_monotonic_manager lookup insert
two_addresses = refl

run-new-Ascending_example :
    Ascending 0 (nonces 1 (run history new_monotonic_manager).0)
    × EachAnswered history (run history new_monotonic_manager).0
run-new-Ascending_example = run-new-Ascending history 1 1001 (omega arith) (omega arith)

abbrev initial : MonotonicManager ℕ
initial = new_monotonic_manager
