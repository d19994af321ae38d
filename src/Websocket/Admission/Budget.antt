-- ===== src/Websocket/Admission/Budget.antt =====
-- websocket/admission.go: the gate against the release functions that it handed out.
use mathlib.Core.Bool.{not}
use hypersdk_go.Prelude.Maps.{or_zero, lookup, lookup-insert, lookup-delete, Positive}
use text.Mathlib.TextEquality.{eq_iff}
use hypersdk_go.Prelude.Int.{ℤ}
use hypersdk_go.Prelude.{
  ℕ, suc, zero, ◌+◌, ◌-◌, ◌≡◌, ◌<◌, refl, ◌∙◌, Bool, true, false, ◌&&◌, some, List, [], ◌∷◌, String,
  string_eq, nat_eq, ◌==◌, if◌then◌else◌, arith, Bool-cases, inl, inr, count_by, count_by-set,
  get_elem?, Option-cases, Result-cases, ok, err, All,
}
use hypersdk_go.Websocket.Admission.{
  Key, key_eq, key_beq_iff, key_beq, Gate, Request, request_key, references_of, acquire_key,
  acquire, release_key, Lease, System, Operation, acquires, releases, step, run, new_gate,
  AdmissionError,
}
use hypersdk_go.Websocket.Admission.Counts.{CountsUsers}
use hypersdk_go.Websocket.Admission.Invariant.{IsValid, acquire_key-IsValid, release_key-IsValid}

-- The release functions for a key that were not called yet.
abbrev pub count_live : Key → List Lease → ℕ
count_live k = count_by (λ (l : Lease). not l.spent && key_beq l.key k)

abbrev one_if : Bool → ℕ
one_if b = if b then 1 else 0

-- An acquisition that succeeds counts its key once more.
acquire_key-references :
    (k j : Key) (g : Gate) {x : Key}
    → (acquire_key k g).0 ≡ ok x
    → (x ≡ k) × (references_of (acquire_key k g).1 j ≡ references_of g j + one_if (key_beq k j))
unfolding acquire_key
acquire_key-references k j g h = ground (
  arith,
  key_beq_iff k j,
  lookup-insert k j 1 g.references,
  lookup-insert k j (references_of g k + 1) g.references,
)

acquire_key_err :
    (k : Key) (g : Gate) {x : AdmissionError}
    → (acquire_key k g).0 ≡ err x
    → (acquire_key k g).1 ≡ g
unfolding acquire_key
acquire_key_err k g h = ground arith

release_key-references :
    (k j : Key) (g : Gate)
    → 0 < references_of g k
    → references_of (release_key k g) j + one_if (key_beq k j) ≡ references_of g j
unfolding release_key
release_key-references k j g held = ground (
  arith,
  key_beq_iff k j,
  lookup-insert k j (references_of g k - 1) g.references,
  lookup-delete k j g.references,
)

-- A gate within its limits whose counts are the release functions still to be called.
pub record IsBalanced (s : System) : Type 0 where
  pub valid : IsValid s.gate
  pub balanced : (k : Key) → references_of s.gate k ≡ count_live k s.leases

new_gate-IsBalanced :
    (subscriptions users : ℤ)
    → IsBalanced (record { gate = new_gate subscriptions users; leases = [] })
unfolding new_gate lookup
new_gate-IsBalanced subscriptions users = record {
  valid = record {
    refs_distinct = tt;
    refs_positive = λ k e. cc;
    subscriptions_le = omega arith;
    users_le = omega arith;
    users = record { distinct = tt; positive = λ u e. cc; unnamed = refl; counted = λ u h. refl };
  };
  balanced = λ k. refl;
}

acquires-IsBalanced : (s : System) (r : Request) → IsBalanced s → IsBalanced (step s (acquires r))
unfolding step acquire
acquires-IsBalanced s r b =
    let k = request_key r in
    let valid = acquire_key-IsValid k s.gate b.valid in
    elim (Result-cases (acquire_key k s.gate).0) [
      | inl (x, good) ↦
          rw (good, step)
            (record {
              valid = valid;
              balanced = λ j. ground (arith, acquire_key-references k j s.gate good, b.balanced j);
            })
      | inr (x, bad) ↦ rw (bad, step, acquire_key_err k s.gate bad) b
    ]

live-pos :
    (l : Lease) (i : ℕ) (ls : List Lease)
    → get_elem? ls i ≡ some l
    → l.spent ≡ false
    → 0 < count_live l.key ls
live-pos l i [] h u = cc
live-pos l zero (m ∷ ls) h u = ground (arith, key_beq_iff l.key l.key)
live-pos l (suc i) (m ∷ ls) h u = omega (arith, live-pos l i ls h u)

releases-IsBalanced : (s : System) (i : ℕ) → IsBalanced s → IsBalanced (step s (releases i))
unfolding step
releases-IsBalanced s i b = elim (Option-cases (get_elem? s.leases i)) [
  | inl out ↦ rw (out, step) b
  | inr (l, there) ↦ elim (Bool-cases l.spent) [
    | inl spent ↦ rw (there, step, spent) b
    | inr live ↦
        let held : 0 < references_of s.gate l.key =
          omega (arith, b.balanced l.key, live-pos l i s.leases there live) in
        rw (there, step, live)
          (record {
            valid = release_key-IsValid l.key s.gate held b.valid;
            balanced = λ j. ground (
              arith,
              live,
              release_key-references l.key j s.gate held,
              b.balanced j,
              count_by-set (λ (m : Lease). not m.spent && key_beq m.key j) s.leases i
                  (record l { spent = true }) l there,
            );
          })
  ]
]

run-IsBalanced : (s : System) (os : List Operation) → IsBalanced s → IsBalanced (run s os)
unfolding run
run-IsBalanced s [] b = b
run-IsBalanced s (acquires r ∷ os) b =
    run-IsBalanced (step s (acquires r)) os (acquires-IsBalanced s r b)
run-IsBalanced s (releases i ∷ os) b =
    run-IsBalanced (step s (releases i)) os (releases-IsBalanced s i b)

abbrev pub started : ℤ → ℤ → System
started subscriptions users = record { gate = new_gate subscriptions users; leases = [] }

-- After any sequence of acquisitions and calls of release functions, repeated calls included, the
-- gate holds each key as often as release functions for it are still to be called, counts for each
-- user the keys that name it, and keeps both maps within their limits.
pub run-started-IsBalanced :
    (subscriptions users : ℤ) (os : List Operation)
    → IsBalanced (run (started subscriptions users) os)
run-started-IsBalanced subscriptions users os =
    run-IsBalanced _ os (new_gate-IsBalanced subscriptions users)

abbrev pub AllSpent : List Lease → Type 0
AllSpent = All (λ (l : Lease). l.spent ≡ true)

none_live : (k : Key) (ls : List Lease) → AllSpent ls → count_live k ls ≡ 0
none_live k [] h = refl
none_live k (l ∷ ls) h = ground (arith, h.0, none_live k ls h.1)

no_references : (m : List (Key × ℕ)) → Positive m → ((k : Key) → or_zero (lookup k m) ≡ 0) → m ≡ []
unfolding lookup
no_references [] p h = refl
no_references ((k, n) ∷ m) p h = absurd (ground (arith, p k, h k, key_beq_iff k k))

no_users : (m : List (String × ℕ)) → CountsUsers m [] → m ≡ []
unfolding lookup
no_users [] c = refl
no_users ((u, n) ∷ m) c = elim (Bool-cases (u == "")) [
  | inl empty ↦ absurd (ground (arith, c.unnamed, empty))
  | inr named ↦ absurd (ground (arith, c.counted u named, c.positive u, eq_iff u u))
]

-- After any history of acquisitions and calls of release functions, repeated calls included, in
-- which every release function that was handed out has been called, both maps of the gate are
-- empty: nothing leaks.
pub run-started-drained :
    (subscriptions users : ℤ) (os : List Operation)
    → AllSpent (run (started subscriptions users) os).leases
    → let g = (run (started subscriptions users) os).gate in
      (g.references ≡ []) × (g.user_references ≡ [])
run-started-drained subscriptions users os h =
    let s = run (started subscriptions users) os in
    let b = run-started-IsBalanced subscriptions users os in
    let empty =
      no_references s.gate.references b.valid.refs_positive
        (λ k. b.balanced k ∙ none_live k s.leases h) in
    (empty, no_users s.gate.user_references (rw (← empty) b.valid.users))
