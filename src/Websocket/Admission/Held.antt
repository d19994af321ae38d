-- ===== src/Websocket/Admission/Held.antt =====
-- websocket/admission.go: the keys and users that the release functions still to be called hold,
-- counted with no map.
use hypersdk_go.Prelude.Maps.{
  or_zero, lookup, delete, lookup-delete, length-delete, lookup_of_pos, Distinct, delete-Distinct,
  Positive, delete-Positive,
}
use text.Mathlib.TextEquality.{eq_iff}
use hypersdk_go.Prelude.{
  ℕ, ◌+◌, ◌≡◌, ◌<◌, refl, Bool, true, false, ◌||◌, List, [], ◌∷◌, String, Equality, string_eq,
  nat_eq, ◌==◌, ltb, if◌then◌else◌, arith, Bool-cases, inl, inr, length,
}
use hypersdk_go.Websocket.Admission.{Key, key_eq, key_beq_iff, Lease}
use hypersdk_go.Websocket.Admission.Counts.{keys_of}
use hypersdk_go.Websocket.Admission.Budget.{count_live}

module _ {ℓ} {K : Type ℓ} ⦃e : Equality K⦄ where
  abbrev pub member : K → List K → Bool
  member k [] = false
  member k (x ∷ xs) = x == k || member k xs

  -- How many different elements a list has.
  abbrev pub count_distinct : List K → ℕ
  count_distinct [] = 0
  count_distinct (x ∷ xs) = (if member x xs then 0 else 1) + count_distinct xs

  no_entries :
      (m : List (K × ℕ))
      → Positive m
      → ((k : K) → ltb 0 (or_zero (lookup k m)) ≡ false)
      → length m ≡ 0
  unfolding lookup
  no_entries [] p h = refl
  no_entries ((k, n) ∷ m) p h = absurd (ground (arith, p k, h k, e.equals_iff k k))

  -- A map of counts has as many entries as a list of its keys has different elements.
  pub length-count_distinct :
      (l : List K) (m : List (K × ℕ))
      → Distinct m
      → Positive m
      → ((k : K) → ltb 0 (or_zero (lookup k m)) ≡ member k l)
      → length m ≡ count_distinct l
  length-count_distinct [] m d p h = no_entries m p h
  length-count_distinct (x ∷ xs) m d p h = elim (Bool-cases (member x xs)) [
    | inl again ↦ ground (
      arith,
      again,
      length-count_distinct xs m d p (λ k. ground (arith, again, h k, e.equals_iff x k)),
    )
    | inr first ↦
        let there = lookup_of_pos x m (ground (arith, h x, e.equals_iff x x)) in
        ground (
          arith,
          first,
          length-delete x _ m d there,
          length-count_distinct xs (delete x m) (delete-Distinct x m d) (delete-Positive x m p)
              (λ k. ground (arith, first, h k, lookup-delete x k m, e.equals_iff x k)),
        )
  ]

-- The keys of the release functions that are still to be called.
abbrev pub live_keys : List Lease → List Key
live_keys [] = []
live_keys (l ∷ ls) = let rest = live_keys ls in if l.spent then rest else l.key ∷ rest

abbrev pub named_users : List Key → List String
named_users [] = []
named_users (k ∷ ks) = let rest = named_users ks in if k.user == "" then rest else k.user ∷ rest

pub live-member : (k : Key) (ls : List Lease) → ltb 0 (count_live k ls) ≡ member k (live_keys ls)
live-member k [] = ground arith
live-member k (l ∷ ls) = ground (arith, live-member k ls)

pub user_of-member :
    (u : String) (k : Key) (ks : List Key)
    → (u == "") ≡ false
    → (k.user == u) ≡ true
    → member k ks ≡ true
    → member u (named_users ks) ≡ true
user_of-member u k [] n e h = cc
user_of-member u k (j ∷ ks) n e h = ground (
  arith,
  user_of-member u k ks n e,
  key_beq_iff j k,
  eq_iff k.user u,
  eq_iff j.user u,
  eq_iff u "",
  eq_iff j.user "",
)

pub member-user_of :
    (u : String) (ks : List Key)
    → member u (named_users ks) ≡ true
    → (k : Key) × (member k ks ≡ true) × ((k.user == u) ≡ true)
member-user_of u [] h = cc
member-user_of u (j ∷ ks) h = elim (Bool-cases (j.user == u)) [
  | inl here ↦ (j, ground (arith, key_beq_iff j j), here)
  | inr later ↦ let (k, there, same) = member-user_of u ks (ground arith) in (k, ground arith, same)
]

pub keys_of-pos :
    (u : String) (k : Key) (m : List (Key × ℕ))
    → (k.user == u) ≡ true
    → 0 < or_zero (lookup k m)
    → 0 < keys_of u m
unfolding lookup
keys_of-pos u k [] e h = omega arith
keys_of-pos u k ((j, n) ∷ m) e h = ground (arith, key_beq_iff j k, keys_of-pos u k m e)

pub pos-keys_of :
    (u : String) (m : List (Key × ℕ))
    → Distinct m
    → Positive m
    → 0 < keys_of u m
    → (k : Key) × ((k.user == u) ≡ true) × (0 < or_zero (lookup k m))
unfolding lookup
pos-keys_of u [] d p h = absurd (omega arith)
pos-keys_of u ((j, n) ∷ m) d p h = elim (Bool-cases (j.user == u)) [
  | inl here ↦ (j, here, ground (arith, p j, key_beq_iff j j))
  | inr later ↦
      let rest =
        pos-keys_of u m d.1 (λ k q. ground (arith, p k, q, d.0, key_beq_iff j k)) (ground arith) in
      (rest.0, rest.1, ground (arith, rest.2, d.0, key_beq_iff j rest.0))
]

pub unnamed : (ks : List Key) → member "" (named_users ks) ≡ false
unnamed [] = refl
unnamed (k ∷ ks) = ground (arith, unnamed ks)
