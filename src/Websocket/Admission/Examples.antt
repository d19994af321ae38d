-- ===== src/Websocket/Admission/Examples.antt =====
-- websocket/admission.go: runs.
use hypersdk_go.Prelude.Maps.{lookup, insert, delete}
use hypersdk_go.Prelude.Texts.{lower_char, to_lower, trim_space}
use hypersdk_go.Prelude.Int.{pos, negsuc}
use hypersdk_go.Prelude.{◌≡◌, ◌⊎◌, refl, List, [], ◌∷◌, String, string_eq, ok, err}
use hypersdk_go.Websocket.Admission.{
  Request, key_eq, key_beq, active_subscription_limit, new_gate, normalize_user, request_key,
  references_of, acquire_key, acquire, release_key, System, Operation, acquires, releases, step,
  run,
}
use hypersdk_go.Websocket.Admission.Budget.{
  IsBalanced, AllSpent, started, run-started-IsBalanced, run-started-drained,
}
use hypersdk_go.Websocket.Admission.Decisions.{decision, acquire-decides}
use hypersdk_go.Websocket.Admission.Held.{live_keys}

runs : Unit {0}
unfolding key_beq new_gate normalize_user request_key acquire_key acquire release_key step run
    lookup insert delete lower_char to_lower trim_space
runs = tt

abbrev request : String → Request
request user = record { owner_id = 1; server_identity = "fills"; user = user }

-- Two spellings of one user share a key, and one release function is called twice.
abbrev history : List Operation
history = acquires (request " 0xAB ") ∷ acquires (request "0xab") ∷ releases 0 ∷ releases 0 ∷ []

abbrev after_history : System
after_history = run (started (pos 1) (negsuc 4)) history

history_held : references_of after_history.gate (request_key (request "0xAb")) ≡ 1
unfolding runs
history_held = refl

run-started-IsBalanced_example : IsBalanced after_history
run-started-IsBalanced_example = run-started-IsBalanced (pos 1) (negsuc 4) history

abbrev after_all : System
after_all = run (started (pos 1) (negsuc 4)) (acquires (request "0xAB") ∷ releases 0 ∷ [])

all_spent : AllSpent after_all.leases
unfolding runs
all_spent = (refl, tt)

run-started-drained_example :
    (after_all.gate.references ≡ []) × (after_all.gate.user_references ≡ [])
run-started-drained_example =
    run-started-drained (pos 1) (negsuc 4) (acquires (request "0xAB") ∷ releases 0 ∷ []) all_spent

abbrev other : Request
other = record { owner_id = 2; server_identity = "fills"; user = "0xcd" }

refused : (acquire other after_history.gate).0 ≡ err active_subscription_limit
unfolding runs
refused = refl

acquire-decides_example :
    ((acquire other after_history.gate).0
      ≡ decision 1 10 (live_keys after_history.leases) (request_key other))
    × (((acquire other after_history.gate).0 ≡ ok (request_key other))
        ⊎ ((acquire other after_history.gate).1 ≡ after_history.gate))
unfolding new_gate
acquire-decides_example = acquire-decides (pos 1) (negsuc 4) history other
