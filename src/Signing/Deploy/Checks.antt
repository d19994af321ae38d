-- ===== src/Signing/Deploy/Checks.antt =====
-- The checks of signing/deploy_actions.go. The decimal library and go-ethereum's address test are
-- parameters. A tuple list is a slice of keyed values; a Go text compares by its code points.
use Prim.Native.String.{◌++◌ as ◌++ₛ◌}
use hypersdk_go.Prelude.Texts.{codes, trim_space}
use hypersdk_go.Prelude.{
  ℕ, Bool, true, false, not, ◌&&◌, ◌||◌, Option, none, some, String, string_eq, nat_eq, ◌==◌, List,
  [], ◌∷◌, if◌then◌else◌, ltb, nat_beq, Result, ok, err, ◌>>=◌,
}

-- The error's own text.
abbrev pub Check : Type 0
Check = Result String (Unit {0})

abbrev pub require : Bool → String → Check
require passes problem = if passes then ok tt else err problem

-- What the program uses of github.com/shopspring/decimal.
pub record DecimalLibrary : Type 1 where
  pub Decimal : Type 0
  pub new_from_string : String → Option Decimal
  pub new_from_int : ℕ → Decimal
  pub one_hundredth : Decimal
  pub is_positive : Decimal → Bool
  pub is_negative : Decimal → Bool
  pub abs : Decimal → Decimal
  pub greater_than : Decimal → Decimal → Bool

-- `a < b` on texts.
unfoldable pub codes_lt : List ℕ → List ℕ → Bool
codes_lt [] [] = false
codes_lt [] (d ∷ ds) = true
codes_lt (c ∷ cs) [] = false
codes_lt (c ∷ cs) (d ∷ ds) =
    let rest = codes_lt cs ds in if ltb c d then true else if nat_beq c d then rest else false

abbrev pub text_lt : String → String → Bool
text_lt s t = codes_lt (codes s) (codes t)

unfoldable pub valid_dex : String → Check
valid_dex dex = require (not (trim_space dex == "")) "dex is required"

unfoldable pub valid_coin : String → Check
valid_coin coin = require (not (trim_space coin == "")) "coin is required"

-- A range over a slice visits nothing of a nil slice.
abbrev pub elements {ℓ} : {A : Type ℓ} → Option (List A) → List A
elements none = []
elements (some values) = values

-- `for _, v := range values { if err := check(v); err != nil { return err } }`
abbrev pub check_all {ℓ} : {A : Type ℓ} → (A → Check) → List A → Check
check_all check [] = ok tt
check_all check (v ∷ vs) = let rest = check_all check vs in check v >>= λ _. rest

-- StringPair, StringUintPair, StringBoolPair and CoinMarginMode.
pub record Keyed {ℓ} (Value : Type ℓ) : Type ℓ where
  pub key : String
  pub value : Value

-- The loops over tuple lists: each key is there, each value passes, and each key follows the last.
module _ {ℓ} {Value : Type ℓ} (check : Keyed Value → Check) (unsorted : String) where
  unfoldable pub sorted_loop : String → List (Keyed Value) → Check
  sorted_loop last [] = ok tt
  sorted_loop last (v ∷ vs) =
      let rest = sorted_loop v.key vs in
      do
        _ ← valid_coin v.key
        _ ← check v
        _ ← require (not (not (last == "") && not (text_lt last v.key))) unsorted
        rest

abbrev pub unsorted_tuples : String
unsorted_tuples = "tuples must be lexicographically sorted with no duplicates"

unfoldable pub valid_sorted_uint_pairs : Option (List (Keyed ℕ)) → Check
valid_sorted_uint_pairs values = sorted_loop (λ v. ok tt) unsorted_tuples "" (elements values)

unfoldable pub valid_margin_mode : String → Bool → Bool
valid_margin_mode mode normal =
    mode == "strictIsolated" || mode == "noCross" || (normal && mode == "normal")

module _ (library : DecimalLibrary) where
  abbrev pub parses : String → Bool
  parses s = elim (library.new_from_string s) [ none ↦ false | some d ↦ true ]

  unfoldable pub positive_decimal : String → Bool
  positive_decimal s = elim (library.new_from_string s) [
    | none ↦ false
    | some d ↦ library.is_positive d
  ]

  unfoldable pub unsigned_decimal : String → Bool
  unsigned_decimal s = elim (library.new_from_string s) [
    | none ↦ false
    | some d ↦ not (library.is_negative d)
  ]

  -- Between zero and a bound.
  unfoldable pub decimal_up_to : ℕ → String → Bool
  decimal_up_to bound s = elim (library.new_from_string s) [
    | none ↦ false
    | some d ↦ not (library.is_negative d || library.greater_than d (library.new_from_int bound))
  ]

  unfoldable pub valid_coin_price : String → String → Check
  valid_coin_price coin price = do
    _ ← valid_coin coin
    require (positive_decimal price) "oracle price must be a positive decimal string"

  -- The caller in the program passes `nonEmpty` as false.
  unfoldable pub valid_sorted_decimal_pairs : Option (List (Keyed String)) → Bool → Check
  valid_sorted_decimal_pairs values non_empty = do
    _ ← require (not (non_empty && no_elements (elements values))) "values are required"
    sorted_loop (λ v. require (parses v.value) (v.key ++ₛ " is not a decimal")) unsorted_tuples ""
        (elements values)
    where
      no_elements : List (Keyed String) → Bool
      no_elements [] = true
      no_elements (v ∷ vs) = false

  unfoldable pub valid_sorted_unsigned_decimal_pairs : Option (List (Keyed String)) → Check
  valid_sorted_unsigned_decimal_pairs values =
      sorted_loop
        (λ v. require (unsigned_decimal v.value) (v.key ++ₛ " is not an unsigned decimal"))
        unsorted_tuples "" (elements values)
