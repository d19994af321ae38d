-- ===== src/Websocket/Manager/Groups.antt =====
-- websocket/manager.go: the groups of a snapshot, and the wire that each would send.
use hypersdk_go.Json.{Fields}
use hypersdk_go.Prelude.Maps.{insert, lookup, lookup-insert, Distinct}
use hypersdk_go.Prelude.{
  ◌≡◌, refl, ap, sym, ◌∙◌, Bool, true, false, Option, none, some, String, string_eq, ◌==◌, List, [],
  ◌∷◌, All, arith, Bool-cases, inl, inr,
}
use hypersdk_go.Websocket.Wires.{Wire, canonical_wire}
use hypersdk_go.Websocket.Registry.{
  Managed, Registry, identity_of, fingerprint, server_subscription_identity, last_wire, state_of,
  subscriptions_for, subscription_identity_state,
}
use hypersdk_go.Websocket.Manager.{Active}
use hypersdk_go.Websocket.Manager.Sync.{
  with_member, group_subscriptions, shared, canonical_group, canonical_groups,
}

-- A group, and the subscriptions that join it.
abbrev pub extend : Option Active → List (String × Managed) → Option Active
extend o [] = o
extend o ((key, s) ∷ more) = extend (some (with_member s o)) more

lookup-group_subscriptions :
    (marshal : Fields → String) (i : String) (subs : List (String × Managed))
    (current : List (String × Active))
    → lookup i (group_subscriptions marshal subs current)
      ≡ extend (lookup i current) (subscriptions_for marshal i subs)
unfolding group_subscriptions subscriptions_for
lookup-group_subscriptions marshal i [] current = refl
lookup-group_subscriptions marshal i ((key, s) ∷ more) current =
    let own = identity_of marshal s in
    let group = with_member s (lookup own current) in
    let rest = lookup-group_subscriptions marshal i more (insert own group current) in
    elim (Bool-cases (own == i)) [
      | inl same ↦
          rest
          ∙ rw (same, lookup-insert own i group current, same, (string_eq.equals_iff own i).0 same)
              refl
      | inr other ↦ rest ∙ rw (other, lookup-insert own i group current, other) refl
    ]

abbrev pub map_group : Option Active → Option Active
map_group none = none
map_group (some a) = some (canonical_group a)

lookup-canonical_groups :
    (i : String) (m : List (String × Active))
    → lookup i (canonical_groups m) ≡ map_group (lookup i m)
unfolding lookup canonical_groups
lookup-canonical_groups i [] = refl
lookup-canonical_groups i ((j, a) ∷ m) = elim (Bool-cases (j == i)) [
  | inl same ↦ rw same refl
  | inr other ↦ rw other (lookup-canonical_groups i m)
]

-- The group of an identity in a snapshot.
abbrev pub group_of : (Fields → String) → String → List (String × Managed) → Option Active
group_of marshal i subs = map_group (extend none (subscriptions_for marshal i subs))

pub lookup-current :
    (marshal : Fields → String) (i : String) (subs : List (String × Managed))
    → lookup i (canonical_groups (group_subscriptions marshal subs [])) ≡ group_of marshal i subs
unfolding lookup
lookup-current marshal i subs =
    lookup-canonical_groups i (group_subscriptions marshal subs [])
    ∙ ap map_group (lookup-group_subscriptions marshal i subs [])

-- Each key once, and each subscription under its own.
abbrev pub WellKept : List (String × Managed) → Type 0
WellKept subs = Distinct subs × All (λ e. e.0 ≡ e.1.key) subs

module _ (marshal : Fields → String) (i : String) where
  absent-subscriptions_for :
      (key : String) (m : List (String × Managed))
      → lookup key m ≡ none
      → lookup key (subscriptions_for marshal i m) ≡ none
  unfolding lookup subscriptions_for
  absent-subscriptions_for key [] h = refl
  absent-subscriptions_for key ((k, t) ∷ m) h = ground (arith, absent-subscriptions_for key m)

  subscriptions_for-WellKept :
      (m : List (String × Managed)) → WellKept m → WellKept (subscriptions_for marshal i m)
  unfolding subscriptions_for
  subscriptions_for-WellKept [] w = w
  subscriptions_for-WellKept ((k, t) ∷ m) w =
      let rest = subscriptions_for-WellKept m (w.0.1, w.1.1) in
      elim (Bool-cases (identity_of marshal t == i)) [
        | inl same ↦ rw same ((absent-subscriptions_for k m w.0.0, rest.0), (w.1.0, rest.1))
        | inr other ↦ rw other rest
      ]

  abbrev OfIdentity : List (String × Managed) → Type 0
  OfIdentity = All (λ e. identity_of marshal e.1 ≡ i)

  subscriptions_for-OfIdentity :
      (m : List (String × Managed)) → OfIdentity (subscriptions_for marshal i m)
  unfolding subscriptions_for
  subscriptions_for-OfIdentity [] = tt
  subscriptions_for-OfIdentity ((k, t) ∷ m) = elim (Bool-cases (identity_of marshal t == i)) [
    | inl same ↦
        rw same
          ((string_eq.equals_iff (identity_of marshal t) i).0 same, subscriptions_for-OfIdentity m)
    | inr other ↦ rw other (subscriptions_for-OfIdentity m)
  ]

shared-insert :
    (key : String) (s : Managed) (m : List (String × Managed))
    → shared m ≡ true
    → shared (insert key s m) ≡ true
unfolding insert
shared-insert key s [] h = cc
shared-insert key s (e ∷ []) h = cc
shared-insert key s ((k, t) ∷ (l, u) ∷ m) h = ground arith

extend-shared :
    (a : Active) (m : List (String × Managed))
    → shared a.members ≡ true
    → (b : Active) × (extend (some a) m ≡ some b) × (b.wire ≡ a.wire) × (shared b.members ≡ true)
extend-shared a [] h = (a, refl, refl, h)
extend-shared a ((k, s) ∷ m) h =
    extend-shared (with_member s (some a)) m (shared-insert s.key s a.members h)

last_wire-identity :
    (marshal : Fields → String) (i : String) (s : Managed) (m : List (String × Managed))
    → identity_of marshal s ≡ i
    → OfIdentity marshal i m
    → server_subscription_identity marshal (last_wire s m).subscription ≡ i
last_wire-identity marshal i s [] h a = h
last_wire-identity marshal i s ((k, t) ∷ m) h a = last_wire-identity marshal i t m a.0 a.1

canonical-fingerprint :
    (marshal : Fields → String) (w : Wire)
    → fingerprint marshal (canonical_wire w) ≡ server_subscription_identity marshal w.subscription
unfolding fingerprint canonical_wire server_subscription_identity
canonical-fingerprint marshal w = refl

two_shared :
    (s t : Managed) → (s.key == t.key) ≡ false → shared (insert t.key t (insert s.key s [])) ≡ true
unfolding insert
two_shared s t h = rw h refl

keys_differ :
    (k j : String) (s t : Managed) (m : List (String × Managed))
    → k ≡ s.key
    → j ≡ t.key
    → lookup k ((j, t) ∷ m) ≡ none
    → (s.key == t.key) ≡ false
unfolding lookup
keys_differ k j s t m ks jt h =
    ground (arith, string_eq.equals_iff j k, string_eq.equals_iff s.key t.key)

-- What a group sends against what the registry asks for its identity.
abbrev pub Sends : (Fields → String) → Option Active → Bool × String → Type 0
Sends marshal none (present, print) = present ≡ false
Sends marshal (some a) (present, print) = (present ≡ true) × (print ≡ fingerprint marshal a.wire)

Sends-several :
    (marshal : Fields → String) (i k j : String) (s t : Managed) (m : List (String × Managed))
    → OfIdentity marshal i ((k, s) ∷ (j, t) ∷ m)
    → (s.key == t.key) ≡ false
    → Sends marshal
        (map_group (extend none ((k, s) ∷ (j, t) ∷ m)))
        (state_of marshal ((k, s) ∷ (j, t) ∷ m))
Sends-several marshal i k j s t m a other =
    let two = with_member t (some (with_member s none)) in
    let (b, be, bw, bs) = extend-shared two m (two_shared s t other) in
    rw (be, bs, bw)
      (
        refl,
        canonical-fingerprint marshal (last_wire t m)
            ∙ last_wire-identity marshal i t m a.1.0 a.1.1
            ∙ sym (canonical-fingerprint marshal s.wire ∙ a.0),
      )

Sends-state_of :
    (marshal : Fields → String) (i : String) (m : List (String × Managed))
    → OfIdentity marshal i m
    → WellKept m
    → Sends marshal (map_group (extend none m)) (state_of marshal m)
unfolding insert
Sends-state_of marshal i [] a w = refl
Sends-state_of marshal i ((k, s) ∷ []) a w = (refl, refl)
Sends-state_of marshal i ((k, s) ∷ (j, t) ∷ m) a w =
    Sends-several marshal i k j s t m a (keys_differ k j s t m w.1.0 w.1.1.0 w.0.0)

-- The group of an identity sends the wire that the registry asks for.
pub group_of-Sends :
    (marshal : Fields → String) (i : String) (r : Registry)
    → WellKept r.subs
    → Sends marshal (group_of marshal i r.subs) (subscription_identity_state marshal i r)
unfolding subscription_identity_state
group_of-Sends marshal i r w =
    Sends-state_of marshal i (subscriptions_for marshal i r.subs)
      (subscriptions_for-OfIdentity marshal i r.subs)
      (subscriptions_for-WellKept marshal i r.subs w)
