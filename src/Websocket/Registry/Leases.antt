-- ===== src/Websocket/Registry/Leases.antt =====
-- websocket/client.go: the leases of the registry against its subscriptions.
use hypersdk_go.Json.{Fields}
use hypersdk_go.Prelude.Maps.{
  insert, lookup, delete, lookup-insert, lookup-delete, Distinct, insert-Distinct, delete-Distinct,
}
use hypersdk_go.Prelude.{
  ℕ, ◌≡◌, refl, sym, ◌∙◌, Bool, true, false, Option, none, some, String, string_eq, nat_eq, ==_refl,
  [], arith, Bool-cases, Option-cases, inl, inr,
}
use hypersdk_go.Websocket.Registry.{
  Managed, Registry, identity_of, subscription_identity_state, detach_subscription_identity,
  after_remove, is_registered, remove, admit_subscription, publish, admit_unless, register,
}
use hypersdk_go.Websocket.Registry.Present.{
  any_for, any_for-insert, any_for-delete, any_for-without, any_for-found, without-Distinct,
  present,
}

-- Every change of the registry. A subscription that is closed is the one under its key, or another.
pub data Change (marshal : Fields → String) : Registry → Registry → Type 0 where
  registers :
      (r : Registry) (acquired : Option ℕ) (s : Managed)
      → Change marshal r (register marshal acquired s r).1
  removes :
      (r : Registry) (s : Managed)
      → lookup s.key r.subs ≡ some s
      → Change marshal r (remove marshal s.key s r).1
  removes_another :
      (r : Registry) (s : Managed)
      → is_registered s.pointer (lookup s.key r.subs) ≡ false
      → Change marshal r (remove marshal s.key s r).1
  detaches :
      (r : Registry) (identity : String)
      → Change marshal r (detach_subscription_identity marshal identity r).2

abbrev pub new_registry : Registry
new_registry = record { closed = false; subs = []; leases = [] }

pub data Changes (marshal : Fields → String) : Registry → Type 0 where
  created : Changes marshal new_registry
  then_change : {r s : Registry} → Changes marshal r → Change marshal r s → Changes marshal s

abbrev pub held : Option ℕ → Bool
held none = false
held (some lease) = true

abbrev pub Leased : (Fields → String) → Registry → Type 0
Leased marshal r =
    (i : String) → held (lookup i r.leases) ≡ (subscription_identity_state marshal i r).0

-- Each key once, and a lease for the identities that are there.
abbrev Kept : (Fields → String) → Registry → Type 0
Kept marshal r =
    Distinct r.subs × ((i : String) → held (lookup i r.leases) ≡ any_for marshal i r.subs)

lease_there :
    (marshal : Fields → String) (s : Managed) (r : Registry) (lease : ℕ) (i : String)
    → Kept marshal r
    → lookup s.key r.subs ≡ none
    → lookup (identity_of marshal s) r.leases ≡ some lease
    → held (lookup i r.leases) ≡ any_for marshal i (insert s.key s r.subs)
lease_there marshal s r lease i k new found = ground (
  arith,
  any_for-insert marshal i s.key s r.subs new,
  k.1 i,
  string_eq.equals_iff (identity_of marshal s) i,
)

lease_granted :
    (marshal : Fields → String) (s : Managed) (r : Registry) (lease : ℕ) (i : String)
    → Kept marshal r
    → lookup s.key r.subs ≡ none
    → held (lookup i (insert (identity_of marshal s) lease r.leases))
      ≡ any_for marshal i (insert s.key s r.subs)
lease_granted marshal s r lease i k new = ground (
  arith,
  any_for-insert marshal i s.key s r.subs new,
  k.1 i,
  lookup-insert (identity_of marshal s) i lease r.leases,
)

publish-Kept :
    (marshal : Fields → String) (s : Managed) (r : Registry) (found acquired : Option ℕ)
    → lookup (identity_of marshal s) r.leases ≡ found
    → Kept marshal r
    → lookup s.key r.subs ≡ none
    → Kept marshal (publish s r (admit_unless marshal found acquired s r)).1
publish-Kept marshal s r (some lease) acquired e k new =
    (insert-Distinct s.key s r.subs k.0, λ i. lease_there marshal s r lease i k new e)
publish-Kept marshal s r none none e k new = k
publish-Kept marshal s r none (some lease) e k new =
    (insert-Distinct s.key s r.subs k.0, λ i. lease_granted marshal s r lease i k new)

register-Kept :
    (marshal : Fields → String) (s : Managed) (r : Registry) (acquired : Option ℕ)
    → Kept marshal r
    → Kept marshal (register marshal acquired s r).1
unfolding register admit_subscription
register-Kept marshal s r acquired k = elim (Bool-cases r.closed) [
  | inl closed ↦ simp closed k
  | inr live ↦ elim (Option-cases (lookup s.key r.subs)) [
    | inl new ↦
        simp (live, new)
          (publish-Kept marshal s r (lookup (identity_of marshal s) r.leases) acquired refl k new)
    | inr (t, there) ↦ simp (live, there) k
  ]
]

-- A lease that is kept when a subscription goes, and one that is given back.
lease_stays :
    (marshal : Fields → String) (s : Managed) (r : Registry) (i : String)
    → Kept marshal r
    → lookup s.key r.subs ≡ some s
    → any_for marshal (identity_of marshal s) (delete s.key r.subs) ≡ true
    → held (lookup i r.leases) ≡ any_for marshal i (delete s.key r.subs)
lease_stays marshal s r i k there stays = ground (
  arith,
  any_for-delete marshal i s.key s r.subs k.0 there,
  any_for-found marshal s.key s r.subs there,
  k.1 i,
  string_eq.equals_iff (identity_of marshal s) i,
)

lease_returned :
    (marshal : Fields → String) (s : Managed) (r : Registry) (i : String)
    → Kept marshal r
    → lookup s.key r.subs ≡ some s
    → any_for marshal (identity_of marshal s) (delete s.key r.subs) ≡ false
    → held (lookup i (delete (identity_of marshal s) r.leases))
      ≡ any_for marshal i (delete s.key r.subs)
lease_returned marshal s r i k there gone = ground (
  arith,
  any_for-delete marshal i s.key s r.subs k.0 there,
  lookup-delete (identity_of marshal s) i r.leases,
  k.1 i,
  string_eq.equals_iff (identity_of marshal s) i,
)

after_remove-Kept :
    (marshal : Fields → String) (s : Managed) (r : Registry)
    → Kept marshal r
    → lookup s.key r.subs ≡ some s
    → Kept marshal
        (after_remove marshal
          (identity_of marshal s)
          (record { closed = r.closed; subs = delete s.key r.subs; leases = r.leases })).1
after_remove-Kept marshal s r k there =
    let after : Registry = record {
      closed = r.closed;
      subs = delete s.key r.subs;
      leases = r.leases;
    } in
    let i = identity_of marshal s in
    elim (Bool-cases (any_for marshal i (delete s.key r.subs))) [
      | inl stays ↦
          simp (present marshal i after, stays)
            (delete-Distinct s.key r.subs k.0, λ j. lease_stays marshal s r j k there stays)
      | inr gone ↦
          simp (present marshal i after, gone)
            (delete-Distinct s.key r.subs k.0, λ j. lease_returned marshal s r j k there gone)
    ]

remove-Kept :
    (marshal : Fields → String) (s : Managed) (r : Registry)
    → lookup s.key r.subs ≡ some s
    → Kept marshal r
    → Kept marshal (remove marshal s.key s r).1
unfolding remove
remove-Kept marshal s r there k =
    simp (there, ==_refl s.pointer) (after_remove-Kept marshal s r k there)

remove_another-Kept :
    (marshal : Fields → String) (s : Managed) (r : Registry)
    → is_registered s.pointer (lookup s.key r.subs) ≡ false
    → Kept marshal r
    → Kept marshal (remove marshal s.key s r).1
unfolding remove
remove_another-Kept marshal s r other k = simp other k

detach-Kept :
    (marshal : Fields → String) (i : String) (r : Registry)
    → Kept marshal r
    → Kept marshal (detach_subscription_identity marshal i r).2
unfolding detach_subscription_identity
detach-Kept marshal i r k = (
  without-Distinct marshal i r.subs k.0,
  λ j. ground (arith, any_for-without marshal i j r.subs, lookup-delete i j r.leases, k.1 j),
)

Change-Kept :
    (marshal : Fields → String) {r s : Registry}
    → Change marshal r s
    → Kept marshal r
    → Kept marshal s
Change-Kept marshal (registers r acquired s) k = register-Kept marshal s r acquired k
Change-Kept marshal (removes r s there) k = remove-Kept marshal s r there k
Change-Kept marshal (removes_another r s other) k = remove_another-Kept marshal s r other k
Change-Kept marshal (detaches r i) k = detach-Kept marshal i r k

Changes-Kept : (marshal : Fields → String) {r : Registry} → Changes marshal r → Kept marshal r
unfolding lookup
Changes-Kept marshal created = (tt, λ i. refl)
Changes-Kept marshal (then_change before change) =
    Change-Kept marshal change (Changes-Kept marshal before)

-- After any subscriptions, closed subscriptions and detached identities, whatever the admission
-- gate answered, the registry holds a lease for an identity exactly while a subscription of that
-- identity is registered, and each key once.
pub Changes-Leased :
    (marshal : Fields → String) {r : Registry}
    → Changes marshal r
    → Distinct r.subs × Leased marshal r
Changes-Leased marshal {r} c =
    let k = Changes-Kept marshal c in (k.0, λ i. k.1 i ∙ sym (present marshal i r))
