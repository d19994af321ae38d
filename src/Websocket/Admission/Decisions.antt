-- ===== src/Websocket/Admission/Decisions.antt =====
-- websocket/admission.go: the answer of the gate, computed from the release functions that are still
-- to be called.
use hypersdk_go.Websocket.Admission.Held.{
  member, count_distinct, length-count_distinct, live_keys, named_users, live-member, unnamed,
  user_of-member, member-user_of, keys_of-pos, pos-keys_of,
}
use text.Mathlib.TextEquality.{eq_iff}
use hypersdk_go.Prelude.Int.{ℤ}
use hypersdk_go.Prelude.{
  ℕ, ◌≡◌, ◌⊎◌, refl, not, ◌||◌, List, [], ◌∷◌, String, string_eq, nat_eq, ◌==◌, ltb, if◌then◌else◌,
  arith, Bool-cases, inl, inr, Result, ok, err,
}
use hypersdk_go.Websocket.Admission.{
  Key, key_eq, Gate, Request, request_key, references_of, user_references_of, acquire_key, acquire,
  release_key, System, Operation, acquires, releases, call_release, step, run, new_gate,
  AdmissionError, active_subscription_limit, unique_user_limit,
}
use hypersdk_go.Websocket.Admission.Counts.{keys_of}
use hypersdk_go.Websocket.Admission.Budget.{IsBalanced, started, run-started-IsBalanced}

-- The answer to a key, where these keys are held.
abbrev pub decision : ℕ → ℕ → List Key → Key → Result AdmissionError Key
decision max_subscriptions max_users held k =
    let users = named_users held in
    if member k held
    then ok k
    else if not (ltb (count_distinct held) max_subscriptions)
    then err active_subscription_limit
    else if k.user == "" || member k.user users || ltb (count_distinct users) max_users
    then ok k
    else err unique_user_limit

module _ (s : System) (b : IsBalanced s) where
  held : (k : Key) → ltb 0 (references_of s.gate k) ≡ member k (live_keys s.leases)
  held k = ground (arith, b.balanced k, live-member k s.leases)

  held_users :
      (u : String)
      → ltb 0 (user_references_of s.gate u) ≡ member u (named_users (live_keys s.leases))
  held_users u = elim (Bool-cases (u == "")) [
    | inl empty ↦
        rw ((eq_iff u "").0 empty)
          (ground (arith, b.valid.users.unnamed, unnamed (live_keys s.leases)))
    | inr named ↦ elim (Bool-cases (member u (named_users (live_keys s.leases)))) [
      | inl live ↦
          let (k, there, same) = member-user_of u (live_keys s.leases) live in
          ground (
            arith,
            live,
            b.valid.users.counted u named,
            keys_of-pos u k s.gate.references same (ground (arith, held k, there)),
          )
      | inr gone ↦ elim (Bool-cases (ltb 0 (keys_of u s.gate.references))) [
        | inl counted ↦
            let (k, same, there) =
              pos-keys_of u s.gate.references b.valid.refs_distinct b.valid.refs_positive
                (ground arith) in
            absurd (
              ground (
                arith,
                gone,
                user_of-member u k (live_keys s.leases) named same (ground (arith, held k, there)),
              ))
        | inr uncounted ↦ ground (arith, gone, uncounted, b.valid.users.counted u named)
      ]
    ]
  ]

  acquire-decision :
      (r : Request) (max_subscriptions max_users : ℕ)
      → s.gate.max_subscriptions ≡ max_subscriptions
      → s.gate.max_users ≡ max_users
      → ((acquire r s.gate).0
          ≡ decision max_subscriptions max_users (live_keys s.leases) (request_key r))
        × (((acquire r s.gate).0 ≡ ok (request_key r)) ⊎ ((acquire r s.gate).1 ≡ s.gate))
  unfolding acquire acquire_key
  acquire-decision r max_subscriptions max_users m n =
      let k = request_key r in
      let subscriptions =
        length-count_distinct (live_keys s.leases) s.gate.references b.valid.refs_distinct
          b.valid.refs_positive held in
      let users =
        length-count_distinct (named_users (live_keys s.leases)) s.gate.user_references
          b.valid.users.distinct b.valid.users.positive held_users in
      (ground (arith, m, n, subscriptions, users, held k, held_users k.user), ground arith)

-- The limits of a gate stay what they were.
SameLimits : Gate → Gate → Type 0
SameLimits g h = (h.max_subscriptions ≡ g.max_subscriptions) × (h.max_users ≡ g.max_users)

step-SameLimits : (s : System) (o : Operation) → SameLimits s.gate (step s o).gate
unfolding SameLimits step acquire acquire_key call_release release_key
step-SameLimits s (acquires r) = ground arith
step-SameLimits s (releases i) = ground arith

run-SameLimits : (s : System) (os : List Operation) → SameLimits s.gate (run s os).gate
unfolding SameLimits run
run-SameLimits s [] = (refl, refl)
run-SameLimits s (o ∷ os) = ground (arith, run-SameLimits (step s o) os, step-SameLimits s o)

-- After any history of a gate, its answer to a request is what the release functions that are still
-- to be called decide. A key that is held is admitted. Another one is refused where as many
-- different keys are held as the subscription limit allows; else it is refused where it names a
-- user that no held key names and as many different users are named as the user limit allows; else
-- it is admitted. A refusal leaves the gate as it was.
pub acquire-decides :
    (subscriptions users : ℤ) (os : List Operation) (r : Request)
    → let s = run (started subscriptions users) os in
      let limits = new_gate subscriptions users in
      ((acquire r s.gate).0
        ≡ decision limits.max_subscriptions limits.max_users (live_keys s.leases) (request_key r))
      × (((acquire r s.gate).0 ≡ ok (request_key r)) ⊎ ((acquire r s.gate).1 ≡ s.gate))
unfolding SameLimits
acquire-decides subscriptions users os r =
    let s = run (started subscriptions users) os in
    let limits = run-SameLimits (started subscriptions users) os in
    acquire-decision s (run-started-IsBalanced subscriptions users os) r _ _ limits.0 limits.1
