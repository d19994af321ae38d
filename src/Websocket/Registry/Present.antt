-- ===== src/Websocket/Registry/Present.antt =====
-- websocket/client.go: whether a subscription of an identity is registered, and what the changes of
-- `subs` do to it.
use hypersdk_go.Json.{Fields}
use hypersdk_go.Prelude.Maps.{insert, lookup, delete, Distinct}
use hypersdk_go.Prelude.{
  ◌≡◌, refl, ap, sym, ◌∙◌, Bool, true, false, ◌||◌, Option, none, some, String, string_eq, nat_eq,
  ◌==◌, ==_refl, List, [], ◌∷◌, if◌then◌else◌, arith, Bool-cases, inl, inr,
}
use hypersdk_go.Websocket.Registry.{
  Managed, Registry, identity_of, subscriptions_for, subscriptions_without, state_of,
  subscription_identity_state,
}

abbrev pub any_for : (Fields → String) → String → List (String × Managed) → Bool
any_for marshal i [] = false
any_for marshal i ((key, s) ∷ m) = (identity_of marshal s == i) || any_for marshal i m

abbrev nonempty : List (String × Managed) → Bool
nonempty [] = false
nonempty (e ∷ m) = true

state_of-nonempty :
    (marshal : Fields → String) (m : List (String × Managed)) → (state_of marshal m).0 ≡ nonempty m
state_of-nonempty marshal [] = refl
state_of-nonempty marshal (e ∷ []) = refl
state_of-nonempty marshal (e ∷ f ∷ m) = refl

nonempty-subscriptions_for :
    (marshal : Fields → String) (i : String) (m : List (String × Managed))
    → nonempty (subscriptions_for marshal i m) ≡ any_for marshal i m
unfolding subscriptions_for
nonempty-subscriptions_for marshal i [] = refl
nonempty-subscriptions_for marshal i ((key, s) ∷ m) =
    ground (arith, nonempty-subscriptions_for marshal i m)

pub present :
    (marshal : Fields → String) (i : String) (r : Registry)
    → (subscription_identity_state marshal i r).0 ≡ any_for marshal i r.subs
unfolding subscription_identity_state
present marshal i r =
    state_of-nonempty marshal (subscriptions_for marshal i r.subs)
    ∙ nonempty-subscriptions_for marshal i r.subs

pub any_for-insert :
    (marshal : Fields → String) (i key : String) (s : Managed) (m : List (String × Managed))
    → lookup key m ≡ none
    → any_for marshal i (insert key s m) ≡ (any_for marshal i m || (identity_of marshal s == i))
unfolding insert lookup
any_for-insert marshal i key s [] h = ground arith
any_for-insert marshal i key s ((k, t) ∷ m) h = ground (arith, any_for-insert marshal i key s m)

any_for-delete_absent :
    (marshal : Fields → String) (i key : String) (m : List (String × Managed))
    → lookup key m ≡ none
    → any_for marshal i (delete key m) ≡ any_for marshal i m
unfolding delete lookup
any_for-delete_absent marshal i key [] h = refl
any_for-delete_absent marshal i key ((k, t) ∷ m) h =
    ground (arith, any_for-delete_absent marshal i key m)

abbrev managed_or : Managed → Option Managed → Managed
managed_or t none = t
managed_or t (some s) = s

the_managed : (t s : Managed) → some t ≡ some s → t ≡ s
the_managed t s h = ap (managed_or t) h

-- Without a subscription of another identity, the same identities are there.
pub any_for-delete :
    (marshal : Fields → String) (i key : String) (s : Managed) (m : List (String × Managed))
    → Distinct m
    → lookup key m ≡ some s
    → (identity_of marshal s == i) ≡ false
    → any_for marshal i (delete key m) ≡ any_for marshal i m
unfolding delete lookup
any_for-delete marshal i key s [] d h n = cc
any_for-delete marshal i key s ((k, t) ∷ m) d h n = elim (Bool-cases (k == key)) [
  | inl same ↦
      let found : some t ≡ some s = rw same at h in
      let absent : lookup key m ≡ none = rw (sym ((string_eq.equals_iff k key).0 same)) d.0 in
      rw (same, any_for-delete_absent marshal i key m absent, the_managed t s found, n) refl
  | inr other ↦
      let found : lookup key m ≡ some s = rw other at h in
      rw (other, any_for-delete marshal i key s m d.1 found n) refl
]

pub any_for-without :
    (marshal : Fields → String) (i j : String) (m : List (String × Managed))
    → any_for marshal j (subscriptions_without marshal i m)
      ≡ (if i == j then false else any_for marshal j m)
unfolding subscriptions_without
any_for-without marshal i j [] = ground arith
any_for-without marshal i j ((k, t) ∷ m) = ground (
  arith,
  any_for-without marshal i j m,
  string_eq.equals_iff i j,
  string_eq.equals_iff (identity_of marshal t) i,
  string_eq.equals_iff (identity_of marshal t) j,
)

pub any_for-found :
    (marshal : Fields → String) (key : String) (s : Managed) (m : List (String × Managed))
    → lookup key m ≡ some s
    → any_for marshal (identity_of marshal s) m ≡ true
unfolding lookup
any_for-found marshal key s [] h = cc
any_for-found marshal key s ((k, t) ∷ m) h = elim (Bool-cases (k == key)) [
  | inl same ↦
      let found : some t ≡ some s = rw same at h in
      rw (the_managed t s found, ==_refl (identity_of marshal s)) refl
  | inr other ↦ ground (arith, any_for-found marshal key s m (rw other at h))
]

absent-without :
    (marshal : Fields → String) (i key : String) (m : List (String × Managed))
    → lookup key m ≡ none
    → lookup key (subscriptions_without marshal i m) ≡ none
unfolding lookup subscriptions_without
absent-without marshal i key [] h = refl
absent-without marshal i key ((k, t) ∷ m) h = ground (arith, absent-without marshal i key m)

pub without-Distinct :
    (marshal : Fields → String) (i : String) (m : List (String × Managed))
    → Distinct m
    → Distinct (subscriptions_without marshal i m)
unfolding subscriptions_without
without-Distinct marshal i [] d = tt
without-Distinct marshal i ((k, t) ∷ m) d = elim (Bool-cases (identity_of marshal t == i)) [
  | inl gone ↦ rw gone (without-Distinct marshal i m d.1)
  | inr kept ↦ rw kept (absent-without marshal i k m d.0, without-Distinct marshal i m d.1)
]
