-- ===== src/Websocket/Posts/Examples.antt =====
-- websocket/post_admission.go: runs of the gate.
use hypersdk_go.Prelude.Int.{pos}
use hypersdk_go.Prelude.{◌<◌, ◌≤◌, ◌≡◌, ◌↔◌, refl, true, false, none, some, List, [], ◌∷◌, canceled}
use hypersdk_go.Websocket.Posts.{
  new_gate, granted, blocked, acquire, Operation, acquires, releases, step, run, started,
}
use hypersdk_go.Websocket.Posts.InFlight.{in_flight, posts_in_flight}

runs : Unit {0}
unfolding new_gate acquire step run
runs = tt

-- Two slots; the third caller is blocked, the fourth is cancelled, and one release is called twice.
abbrev operations : List Operation
operations =
    acquires none
    ∷ acquires none
    ∷ acquires none
    ∷ acquires (some canceled)
    ∷ releases 0
    ∷ releases 0
    ∷ []

one_left : (run (started (pos 2)) operations).spent ≡ true ∷ false ∷ []
unfolding runs
one_left = refl

full : (acquire none (record { limit = 2; held = 2 })).0 ≡ blocked
unfolding runs
full = refl

default_limit : (new_gate (pos 0)).limit ≡ 100
unfolding runs
default_limit = refl

posts_in_flight_example :
    (in_flight (run (started (pos 2)) operations) ≤ (new_gate (pos 2)).limit)
    × (((acquire none (run (started (pos 2)) operations).gate).0 ≡ granted)
        ↔ (in_flight (run (started (pos 2)) operations) < (new_gate (pos 2)).limit))
posts_in_flight_example = posts_in_flight (pos 2) operations
