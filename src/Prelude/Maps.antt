-- ===== src/Prelude/Maps.antt =====
-- Go maps as association lists. A theorem that holds for every list covers every iteration order.
use Prim.Native.Nat.{ℕ, ◌+◌, ◌<◌}
use mathlib.Core.Path.{◌≡◌, refl}
use mathlib.Core.Logic.{◌≢◌}
use mathlib.Core.Bool.{Bool}
use mathlib.Core.List.{List, [], ◌∷◌}
use mathlib.Core.Option.{Option, none, some}
use native.Mathlib.Omega.{arith}
use hypersdk_go.Prelude.Tests.{Equality, ◌==◌, if◌then◌else◌}
use hypersdk_go.Prelude.Lists.{length, count_by}

-- A read of a map of numbers gives 0 for a missing key.
abbrev pub or_zero : Option ℕ → ℕ
or_zero none = 0
or_zero (some n) = n

module _ {ℓ κ} {K : Type ℓ} {V : Type κ} ⦃e : Equality K⦄ where
  -- `m[key] = value`, which keeps the place of a key that is there.
  unfoldable pub insert : K → V → List (K × V) → List (K × V)
  insert key value (entry ∷ rest) =
      if entry.0 == key then (entry.0, value) ∷ rest else entry ∷ insert key value rest
  insert key value [] = (key, value) ∷ []

  -- `m[key]` with its second result.
  unfoldable pub lookup : K → List (K × V) → Option V
  lookup key (entry ∷ rest) = if entry.0 == key then some entry.1 else lookup key rest
  lookup key [] = none

  -- `delete(m, k)`
  unfoldable pub delete : K → List (K × V) → List (K × V)
  delete k [] = []
  delete k ((j, w) ∷ m) = let rest = delete k m in if j == k then rest else (j, w) ∷ rest

  -- The law of a write, for every key that is read afterwards.
  pub lookup-insert :
      (written read : K) (value : V) (m : List (K × V))
      → lookup read (insert written value m)
        ≡ (if written == read then some value else lookup read m)
  unfolding lookup insert
  lookup-insert written read value (entry ∷ rest) = ground (
    arith,
    lookup-insert written read value rest,
    e.equals_iff entry.0 read,
    e.equals_iff entry.0 written,
    e.equals_iff written read,
  )
  lookup-insert written read value [] = refl

  pub lookup-delete :
      (k j : K) (m : List (K × V)) → lookup j (delete k m) ≡ (if k == j then none else lookup j m)
  unfolding lookup delete
  lookup-delete k j [] = ground arith
  lookup-delete k j ((i, w) ∷ m) =
      ground (arith, e.equals_iff k j, e.equals_iff i k, e.equals_iff i j, lookup-delete k j m)

  -- A map holds each key once.
  abbrev pub Distinct : List (K × V) → Type κ
  Distinct [] = Unit
  Distinct ((k, v) ∷ m) = (lookup k m ≡ none) × Distinct m

  pub insert-Distinct : (k : K) (v : V) (m : List (K × V)) → Distinct m → Distinct (insert k v m)
  unfolding insert lookup
  insert-Distinct k v [] d = (refl, tt)
  insert-Distinct k v ((i, w) ∷ m) d =
      ground (
        arith,
        e.equals_iff i k,
        e.equals_iff k i,
        lookup-insert k i v m,
        insert-Distinct k v m d.1,
      )

  pub delete-Distinct : (k : K) (m : List (K × V)) → Distinct m → Distinct (delete k m)
  unfolding delete
  delete-Distinct k [] d = tt
  delete-Distinct k ((i, w) ∷ m) d = ground (arith, lookup-delete k i m, delete-Distinct k m d.1)

  delete_absent : (k : K) (m : List (K × V)) → lookup k m ≡ none → delete k m ≡ m
  unfolding lookup delete
  delete_absent k [] h = refl
  delete_absent k ((i, w) ∷ m) h = ground (arith, delete_absent k m)

  pub length-insert_new :
      (k : K) (v : V) (m : List (K × V)) → lookup k m ≡ none → length (insert k v m) ≡ length m + 1
  unfolding lookup insert
  length-insert_new k v [] h = omega arith
  length-insert_new k v ((i, w) ∷ m) h = ground (arith, length-insert_new k v m)

  pub length-insert_old :
      (k : K) (v w : V) (m : List (K × V)) → lookup k m ≡ some w → length (insert k v m) ≡ length m
  unfolding lookup insert
  length-insert_old k v w [] h = cc
  length-insert_old k v w ((i, x) ∷ m) h = ground (arith, length-insert_old k v w m)

  pub length-delete :
      (k : K) (v : V) (m : List (K × V))
      → Distinct m
      → lookup k m ≡ some v
      → length (delete k m) + 1 ≡ length m
  unfolding lookup delete
  length-delete k v [] d h = cc
  length-delete k v ((i, w) ∷ m) d h =
      ground (arith, e.equals_iff i k, delete_absent k m, length-delete k v m d.1)

  -- How many keys of a map pass a test.
  abbrev pub count_keys : (K → Bool) → List (K × V) → ℕ
  count_keys p = count_by (λ x. p x.0)

  pub count_keys-insert_new :
      (p : K → Bool) (k : K) (v : V) (m : List (K × V))
      → lookup k m ≡ none
      → count_keys p (insert k v m) ≡ count_keys p m + (if p k then 1 else 0)
  unfolding lookup insert
  count_keys-insert_new p k v [] h = ground arith
  count_keys-insert_new p k v ((i, w) ∷ m) h = ground (arith, count_keys-insert_new p k v m)

  pub count_keys-insert_old :
      (p : K → Bool) (k : K) (v w : V) (m : List (K × V))
      → lookup k m ≡ some w
      → count_keys p (insert k v m) ≡ count_keys p m
  unfolding lookup insert
  count_keys-insert_old p k v w [] h = cc
  count_keys-insert_old p k v w ((i, x) ∷ m) h =
      ground (arith, e.equals_iff i k, count_keys-insert_old p k v w m)

  pub count_keys-delete :
      (p : K → Bool) (k : K) (v : V) (m : List (K × V))
      → Distinct m
      → lookup k m ≡ some v
      → count_keys p (delete k m) + (if p k then 1 else 0) ≡ count_keys p m
  unfolding lookup delete
  count_keys-delete p k v [] d h = cc
  count_keys-delete p k v ((i, w) ∷ m) d h =
      ground (arith, e.equals_iff i k, delete_absent k m, count_keys-delete p k v m d.1)

module _ {ℓ} {K : Type ℓ} ⦃e : Equality K⦄ where
  -- No count is stored as 0.
  abbrev pub Positive : List (K × ℕ) → Type ℓ
  Positive m = (k : K) → lookup k m ≢ some 0

  pub lookup_of_pos :
      (k : K) (m : List (K × ℕ))
      → 0 < or_zero (lookup k m)
      → lookup k m ≡ some (or_zero (lookup k m))
  lookup_of_pos k m h = ground arith

  pub insert-Positive :
      (k : K) (n : ℕ) (m : List (K × ℕ)) → 0 < n → Positive m → Positive (insert k n m)
  insert-Positive k n m h p j q = ground (arith, lookup-insert k j n m, p j)

  pub delete-Positive : (k : K) (m : List (K × ℕ)) → Positive m → Positive (delete k m)
  delete-Positive k m p j q = ground (arith, lookup-delete k j m, p j)
