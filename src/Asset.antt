-- ===== src/Asset.antt =====
-- types/market.go and asset/resolver.go: markets, their references, and the static resolver.
pub mod Index
pub mod Cached
pub mod Loads
pub mod Metadata
pub mod Lookups
mod Examples
use Prim.Native.String.{String}
use hypersdk_go.Prelude.Int.{ℤ, pos, negsuc, leb_ℤ}
use hypersdk_go.Prelude.Texts.{codes, parse_uint}
use hypersdk_go.Prelude.Maps.{lookup, insert}
use hypersdk_go.Prelude.{
  ℕ, ◌%◌, ◌≡◌, ◌↔◌, refl, Bool, true, false, not, ◌&&◌, ◌||◌, Option, none, some, List, [], ◌∷◌,
  ◌++◌, Equality, string_eq, nat_eq, ◌==◌, leb, if◌then◌else◌, Result, ok, err, Context,
  ContextError, arith,
}

-- `MarketKind` is a string; these are its constants.
abbrev pub perp : String
perp = "perp"

abbrev pub spot : String
spot = "spot"

abbrev pub hip3 : String
hip3 = "hip3"

abbrev pub outcome : String
outcome = "outcome"

-- `Asset`
pub record Asset : Type 0 where
  pub id : ℤ
  pub symbol : String
  pub name : String
  pub kind : String
  pub sz_decimals : ℤ
  pub dex : String

-- `MarketRef`
pub record MarketRef : Type 0 where
  pub symbol : String
  pub kind : String
  pub dex : String

-- `int` as a key of a map.
abbrev pub int_beq : ℤ → ℤ → Bool
int_beq (pos a) (pos b) = a == b
int_beq (pos a) (negsuc b) = false
int_beq (negsuc a) (pos b) = false
int_beq (negsuc a) (negsuc b) = a == b

pub int_beq_iff : (a b : ℤ) → (int_beq a b ≡ true) ↔ (a ≡ b)
int_beq_iff (pos a) (pos b) = ground arith
int_beq_iff (pos a) (negsuc b) = ground arith
int_beq_iff (negsuc a) (pos b) = ground arith
int_beq_iff (negsuc a) (negsuc b) = ground arith

instance abbrev pub int_eq : Equality ℤ
int_eq = record { equals = int_beq; equals_iff = int_beq_iff }

-- Why a market reference is refused.
pub data MarketError : Type 0 where
  symbol_required dex_forbidden outcome_notation dex_required hip3_namespace unsupported_kind :
      MarketError

pub data ResolveError : Type 0 where
  context_done : ContextError → ResolveError
  invalid_market : MarketError → ResolveError
  not_found : String → ResolveError
  not_found_id : ℤ → ResolveError
  ambiguous_symbol : String → ResolveError
  ambiguous_id : ℤ → ResolveError
  unsupported_source : ResolveError
  source_failed : ℕ → ResolveError

-- What stands behind a prefix; `none` without the prefix.
unfoldable pub strip_prefix : List ℕ → List ℕ → Option (List ℕ)
strip_prefix [] cs = some cs
strip_prefix (p ∷ ps) [] = none
strip_prefix (p ∷ ps) (c ∷ cs) = let rest = strip_prefix ps cs in if p == c then rest else none

abbrev binary_side : Option ℕ → Bool
binary_side none = false
binary_side (some encoding) = leb (encoding % 10) 1

abbrev outcome_digits : Option (List ℕ) → Bool
outcome_digits none = false
outcome_digits (some digits) = binary_side (parse_uint digits)

-- `#<outcome><side>`: a hash, and a uint64 whose last digit is 0 or 1.
unfoldable pub is_outcome_symbol : String → Bool
is_outcome_symbol symbol = outcome_digits (strip_prefix (codes "#") (codes symbol))

abbrev not_empty : Option (List ℕ) → Bool
not_empty (some (c ∷ cs)) = true
not_empty _ = false

-- `<dex>:<name>` with a name.
unfoldable pub in_namespace : String → String → Bool
in_namespace dex symbol = not_empty (strip_prefix (codes dex ++ codes ":") (codes symbol))

-- `validateMarketRef`, `none` when the reference is valid.
unfoldable pub validate_market_ref : MarketRef → Option MarketError
validate_market_ref ref =
    if ref.symbol == ""
    then some symbol_required
    else if ref.kind == perp || ref.kind == spot || ref.kind == outcome
    then if not (ref.dex == "")
      then some dex_forbidden
      else if ref.kind == outcome && not (is_outcome_symbol ref.symbol)
      then some outcome_notation
      else none
    else if ref.kind == hip3
    then if ref.dex == ""
      then some dex_required
      else if in_namespace ref.dex ref.symbol
      then none
      else some hip3_namespace
    else some unsupported_kind

abbrev pub or_nil {ℓ} : {A : Type ℓ} → Option (List A) → List A
or_nil none = []
or_nil (some xs) = xs

-- A map from a key of an asset to the assets with that key.
abbrev add_asset {ℓ} :
    {K : Type ℓ} ⦃e : Equality K⦄
    → (Asset → K)
    → List (K × List Asset)
    → Asset
    → List (K × List Asset)
add_asset key m a = insert (key a) (or_nil (lookup (key a) m) ++ a ∷ []) m

-- The loop that fills such a map.
unfoldable pub index_by {ℓ} :
    {K : Type ℓ} ⦃e : Equality K⦄
    → (Asset → K)
    → List (K × List Asset)
    → List Asset
    → List (K × List Asset)
index_by key m [] = m
index_by key m (a ∷ more) = index_by key (add_asset key m a) more

-- `StaticResolver`
pub record StaticResolver : Type 0 where
  pub assets : List (String × List Asset)
  pub by_id : List (ℤ × List Asset)

-- `NewStaticResolver`
unfoldable pub new_static_resolver : List Asset → StaticResolver
new_static_resolver assets = record {
  assets = index_by (λ a. a.symbol) [] assets;
  by_id = index_by (λ a. a.id) [] assets;
}

-- The only asset of a list, or one of two errors.
abbrev pub unique : ResolveError → ResolveError → List Asset → Result ResolveError Asset
unique missing ambiguous [] = err missing
unique missing ambiguous (a ∷ []) = ok a
unique missing ambiguous (a ∷ b ∷ more) = err ambiguous

-- `StaticResolver.ResolveID`
unfoldable pub static_resolve_id : StaticResolver → Context → ℤ → Result ResolveError Asset
static_resolve_id r (some e) id = err (context_done e)
static_resolve_id r none id =
    unique (not_found_id id) (ambiguous_id id) (or_nil (lookup id r.by_id))

abbrev of_symbol : String → Option (List Asset) → Result ResolveError Asset
of_symbol symbol none = err (not_found symbol)
of_symbol symbol (some []) = err (ambiguous_symbol symbol)
of_symbol symbol (some (a ∷ [])) = ok a
of_symbol symbol (some (a ∷ b ∷ more)) = err (ambiguous_symbol symbol)

-- `StaticResolver.Resolve`
unfoldable pub static_resolve : StaticResolver → Context → String → Result ResolveError Asset
static_resolve r (some e) symbol = err (context_done e)
static_resolve r none symbol = of_symbol symbol (lookup symbol r.assets)

-- The loop over the assets of a symbol.
unfoldable pub first_market : MarketRef → List Asset → Result ResolveError Asset
first_market ref [] = err (not_found ref.symbol)
first_market ref (a ∷ more) =
    let rest = first_market ref more in
    if a.kind == ref.kind && a.dex == ref.dex then ok a else rest

abbrev if_valid {ℓ} :
    {A : Type ℓ} → Option MarketError → Result ResolveError A → Result ResolveError A
if_valid (some e) r = err (invalid_market e)
if_valid none r = r

-- `StaticResolver.ResolveMarket`
unfoldable pub static_resolve_market :
    StaticResolver → Context → MarketRef → Result ResolveError Asset
static_resolve_market r (some e) ref = err (context_done e)
static_resolve_market r none ref =
    if_valid (validate_market_ref ref) (first_market ref (or_nil (lookup ref.symbol r.assets)))
