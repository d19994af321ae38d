-- ===== src/Prelude/Results.antt =====
-- Go's `(value, error)` as a sum: an error with no value, or a value with no error.
use mathlib.Core.Path.{◌≡◌, refl}
use mathlib.Core.Logic.{◌⊎◌, inl, inr}

pub data Result {ℓ κ} (Error : Type ℓ) (Value : Type κ) : Type (ℓ ⊔ κ) where
  err : Error → Result Error Value
  ok : Value → Result Error Value

infixl 5 ◌>>=◌
module _ {ℓ κ μ} {Error : Type ℓ} {Value : Type κ} {Next : Type μ} where
  -- `if err != nil { return err }`
  abbrev pub ◌>>=◌ : Result Error Value → (Value → Result Error Next) → Result Error Next
  ◌>>=◌ (err x) next = err x
  ◌>>=◌ (ok value) next = next value

  -- A chain that returns a value took a value from its first step.
  pub bind-eq-ok :
      (first : Result Error Value) (next : Value → Result Error Next) {result : Next}
      → ◌>>=◌ first next ≡ ok result
      → (value : Value) × (first ≡ ok value) × (next value ≡ ok result)
  bind-eq-ok (err x) next h = cc
  bind-eq-ok (ok value) next h = (value, refl, h)

pub Result-cases {ℓ κ} :
    {E : Type ℓ} {A : Type κ} (r : Result E A) → ((a : A) × (r ≡ ok a)) ⊎ ((e : E) × (r ≡ err e))
Result-cases (ok a) = inl (a, refl)
Result-cases (err e) = inr (e, refl)
