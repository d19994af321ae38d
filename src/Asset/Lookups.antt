-- ===== src/Asset/Lookups.antt =====
-- asset/meta_resolver.go: the lookups over the base, HIP-3 and outcome snapshots. What `snapshot`
-- and `optionalSnapshot` return to the call is an argument; a snapshot that the call does not ask
-- for is not read.
pub mod Markets
mod Examples
use Prim.Native.String.{String}
use hypersdk_go.Prelude.Int.{ℤ, pos, leb_ℤ}
use hypersdk_go.Prelude.Maps.{lookup}
use hypersdk_go.Prelude.{
  ℕ, Bool, true, false, not, ◌&&◌, Option, none, some, List, [], ◌∷◌, ◌++◌, string_eq, ◌==◌,
  if◌then◌else◌, Result, ok, err, ◌>>=◌, Context, ContextError,
}
use hypersdk_go.Asset.{
  Asset, MarketRef, hip3, outcome, ResolveError, context_done, not_found, not_found_id,
  ambiguous_id, int_eq, or_nil, unique, validate_market_ref, if_valid, first_market,
}
use hypersdk_go.Asset.Loads.{Snapshot, Loaded, resolve_symbol}

-- What the three namespaces answer to a call, and whether outcome metadata is included.
pub record Answers : Type 0 where
  pub base : Loaded
  pub hip3_snapshot : Loaded
  pub outcome_snapshot : Loaded
  pub outcomes : Bool

-- `Resolve`
unfoldable pub meta_resolve : Answers → String → Result ResolveError Asset
meta_resolve r symbol = r.base >>= λ s. resolve_symbol s symbol

-- The snapshot that the kind of a market asks for.
abbrev pub snapshot_for : Answers → MarketRef → Loaded
snapshot_for r ref =
    if ref.kind == hip3
    then r.hip3_snapshot
    else if ref.kind == outcome
    then if r.outcomes then r.outcome_snapshot else err (not_found ref.symbol)
    else r.base

-- `ResolveMarket`
unfoldable pub meta_resolve_market : Answers → Context → MarketRef → Result ResolveError Asset
meta_resolve_market r (some e) ref = err (context_done e)
meta_resolve_market r none ref =
    if_valid (validate_market_ref ref)
      (snapshot_for r ref >>= λ s. first_market ref (or_nil (lookup ref.symbol s.by_symbol)))

-- `s.byID[id]`
abbrev pub assets_with_id : ℤ → Snapshot → List Asset
assets_with_id id s = or_nil (lookup id s.by_id)

-- The assets of an optional namespace behind those so far, where the id may be its own.
abbrev pub append_if : Bool → Loaded → ℤ → List Asset → Result ResolveError (List Asset)
append_if false loaded id so_far = ok so_far
append_if true (err e) id so_far = err e
append_if true (ok s) id so_far = ok (so_far ++ assets_with_id id s)

-- `ResolveID`
unfoldable pub meta_resolve_id : Answers → Context → ℤ → Result ResolveError Asset
meta_resolve_id r (some e) id = err (context_done e)
meta_resolve_id r none id = r.base >>= λ s.
    append_if (leb_ℤ (pos 100000) id) r.hip3_snapshot id (assets_with_id id s) >>= λ with_hip3.
    append_if (leb_ℤ (pos 100000000) id && r.outcomes) r.outcome_snapshot id with_hip3 >>= λ all.
    unique (not_found_id id) (ambiguous_id id) all

-- The error of a forced load, where it is made.
abbrev pub error_of : Bool → Loaded → Option ResolveError
error_of true (err e) = some e
error_of _ _ = none

abbrev pub first_error : Option ResolveError → Option ResolveError → Option ResolveError
first_error none later = later
first_error (some e) later = some e

-- `Refresh`, with what the three forced loads return; the flags tell which optional namespaces were
-- initialized.
unfoldable pub meta_refresh : Answers → Bool → Bool → Option ResolveError
meta_refresh r hip3_initialized outcome_initialized = elim r.base [
  | err e ↦ some e
  | ok s ↦
      first_error (error_of hip3_initialized r.hip3_snapshot)
        (error_of (r.outcomes && outcome_initialized) r.outcome_snapshot)
]
