-- ===== src/Asset/Metadata/Outcomes.antt =====
-- asset/meta_resolver.go: the markets of outcome metadata have the notation that a market reference
-- asks for.
use Prim.Native.String.{String, char_at}
use hypersdk_go.Prelude.Int.{ℤ, pos, negsuc, wrap_64, wrap_64_id, wrap_64-add, two_63, two_64}
use hypersdk_go.Prelude.Decimals.{show_int, show_nat, parse_uint-show_nat}
use hypersdk_go.Prelude.{
  ℕ, ◌+◌, ◌*◌, ◌<◌, ◌≤◌, ◌%◌, ◌≡◌, refl, ap, ◌∙◌, Bool, true, false, none, List, [], ◌∷◌, ◌++◌,
  string_eq, nat_eq, ◌==◌, All, arith, Bool-cases, inl, inr, All-append,
}
use hypersdk_go.Asset.{
  Asset, MarketRef, outcome, strip_prefix, is_outcome_symbol, validate_market_ref, int_eq,
  binary_side,
}
use hypersdk_go.Asset.Metadata.{OutcomeMarket, side_asset, sides_of, append_outcomes}

-- The market reference of an asset.
abbrev pub ref_of : Asset → MarketRef
ref_of a = record { symbol = a.symbol; kind = a.kind; dex = a.dex }

-- `#n` with n in decimal.
abbrev pub hash : ℕ → String
hash n = String.◌∷◌ (char_at "#" 0) (show_nat n)

-- A number that the exchange's encoding does not wrap.
abbrev pub InRange : ℤ → Type 0
InRange (pos n) = 100000000 + (n * 10 + 1) < two_63
InRange (negsuc n) = Unit

-- An asset with a valid reference, whose symbol and id have one number.
abbrev pub IsOutcome : Asset → Type 0
IsOutcome a =
    (validate_market_ref (ref_of a) ≡ none)
    × ((n : ℕ) × (a.symbol ≡ hash n) × (a.id ≡ pos (100000000 + n)))

hash-symbol : (n : ℕ) → n < two_64 → n % 10 ≤ 1 → is_outcome_symbol (hash n) ≡ true
unfolding is_outcome_symbol strip_prefix
hash-symbol n below binary = ap binary_side (parse_uint-show_nat n below) ∙ ground arith

hash_filled : (n : ℕ) → (hash n == "") ≡ false
hash_filled n = elim (Bool-cases (hash n == "")) [
  | inl empty ↦ let none_left : hash n ≡ "" = (string_eq.equals_iff (hash n) "").0 empty in cc
  | inr filled ↦ filled
]

hash-valid :
    (n : ℕ)
    → n < two_64
    → n % 10 ≤ 1
    → validate_market_ref (record { symbol = hash n; kind = outcome; dex = "" }) ≡ none
unfolding validate_market_ref
hash-valid n below binary = rw (hash-symbol n below binary, hash_filled n) refl

side-IsOutcome :
    (n : ℕ) → 100000000 + n < two_63 → n % 10 ≤ 1 → IsOutcome (side_asset (wrap_64 (pos n)))
unfolding show_int
side-IsOutcome n below binary =
    let fits : n < two_63 = omega arith in
    let fits_uint : n < two_64 = omega arith in
    rw (wrap_64_id (pos n) fits)
      (hash-valid n fits_uint binary, (n, refl, wrap_64-add 100000000 n below))

sides-IsOutcome :
    (encoding : ℤ) (two : Bool) → InRange encoding → All IsOutcome (sides_of encoding two)
sides-IsOutcome (pos n) true h = (
  side-IsOutcome (n * 10) (omega arith) (omega arith),
  (side-IsOutcome (n * 10 + 1) h (omega arith), tt),
)
sides-IsOutcome (pos n) false h = tt
sides-IsOutcome (negsuc n) two h = tt

append_outcomes-All :
    (assets : List Asset) (markets : List OutcomeMarket)
    → All IsOutcome assets
    → All (λ o. InRange o.encoding) markets
    → All IsOutcome (append_outcomes assets markets)
unfolding append_outcomes
append_outcomes-All assets [] a h = a
append_outcomes-All assets (o ∷ more) a h =
    append_outcomes-All (assets ++ sides_of o.encoding (o.sides == 2)) more
      (All-append IsOutcome assets (sides_of o.encoding (o.sides == 2)) a
        (sides-IsOutcome o.encoding (o.sides == 2) h.0))
      h.1

-- For metadata whose numbers do not wrap, every outcome asset has a reference that the resolvers
-- accept: a hash and the decimal of a number that reads back as a uint64 with last digit 0
-- or 1; and its id is 100000000 plus the same number.
pub append_outcomes-IsOutcome :
    (markets : List OutcomeMarket)
    → All (λ o. InRange o.encoding) markets
    → All IsOutcome (append_outcomes [] markets)
append_outcomes-IsOutcome markets h = append_outcomes-All [] markets tt h
