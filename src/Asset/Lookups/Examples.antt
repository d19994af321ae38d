-- ===== src/Asset/Lookups/Examples.antt =====
-- asset/meta_resolver.go: lookups in three small snapshots.
use Prim.Native.String.{String}
use hypersdk_go.Prelude.Int.{pos}
use hypersdk_go.Prelude.Maps.{lookup, insert}
use hypersdk_go.Prelude.Texts.{parse_uint}
use hypersdk_go.Prelude.{
  ℕ, ◌≡◌, refl, true, false, ◌&&◌, some, none, List, [], ◌∷◌, ok, err, canceled, string_eq, ◌==◌,
  find_by,
}
use hypersdk_go.Asset.{
  Asset, MarketRef, perp, hip3, outcome, context_done, source_failed, not_found_id, strip_prefix,
  is_outcome_symbol, in_namespace, validate_market_ref, index_by, first_market, if_valid,
}
use hypersdk_go.Asset.Index.{is_market, or_missing}
use hypersdk_go.Asset.Loads.{index_assets, resolve_symbol}
use hypersdk_go.Asset.Lookups.{
  Answers, meta_resolve, meta_resolve_market, meta_resolve_id, meta_refresh,
}
use hypersdk_go.Asset.Lookups.Markets.{meta_resolve_market-first, Reports, meta_refresh-Reports}

runs : Unit {0}
unfolding lookup insert parse_uint strip_prefix is_outcome_symbol in_namespace validate_market_ref
    index_by first_market index_assets resolve_symbol meta_resolve meta_resolve_market
    meta_resolve_id meta_refresh
runs = tt

abbrev listed : String → ℕ → String → String → Asset
listed symbol id kind dex = record {
  id = pos id;
  symbol = symbol;
  name = symbol;
  kind = kind;
  sz_decimals = pos 2;
  dex = dex;
}

abbrev base_assets : List Asset
base_assets = listed "BTC" 0 perp "" ∷ listed "ETH" 1 perp "" ∷ []

abbrev hip3_assets : List Asset
hip3_assets = listed "abc:X" 110000 hip3 "abc" ∷ []

abbrev outcome_assets : List Asset
outcome_assets = listed "#120" 100000120 outcome "" ∷ []

abbrev answers : Answers
answers = record {
  base = ok (index_assets base_assets);
  hip3_snapshot = ok (index_assets hip3_assets);
  outcome_snapshot = ok (index_assets outcome_assets);
  outcomes = true;
}

-- The optional endpoints are down.
abbrev degraded : Answers
degraded = record {
  base = ok (index_assets base_assets);
  hip3_snapshot = err (source_failed 1);
  outcome_snapshot = err (source_failed 2);
  outcomes = true;
}

abbrev ref : MarketRef
ref = record { symbol = "abc:X"; kind = hip3; dex = "abc" }

by_id :
    (meta_resolve_id answers none (pos 1) ≡ ok (listed "ETH" 1 perp ""))
    × (meta_resolve_id answers none (pos 110000) ≡ ok (listed "abc:X" 110000 hip3 "abc"))
    × (meta_resolve_id answers none (pos 100000120) ≡ ok (listed "#120" 100000120 outcome ""))
    × (meta_resolve_id answers none (pos 7) ≡ err (not_found_id (pos 7)))
    × (meta_resolve_id answers (some canceled) (pos 1) ≡ err (context_done canceled))
unfolding runs
by_id = (refl, refl, refl, refl, refl)

still_up :
    (meta_resolve_id degraded none (pos 1) ≡ ok (listed "ETH" 1 perp ""))
    × (meta_resolve degraded "BTC" ≡ ok (listed "BTC" 0 perp ""))
unfolding runs
still_up = (refl, refl)

down :
    (meta_resolve_id degraded none (pos 110000) ≡ err (source_failed 1))
    × (meta_resolve_market degraded none ref ≡ err (source_failed 1))
unfolding runs
down = (refl, refl)

first_failure :
    (meta_refresh degraded true true ≡ some (source_failed 1))
    × (meta_refresh degraded false true ≡ some (source_failed 2))
    × (meta_refresh degraded false false ≡ none)
unfolding runs
first_failure = (refl, refl, refl)

meta_resolve_market-first_example :
    meta_resolve_market answers none ref
    ≡ if_valid
        (validate_market_ref ref)
        (or_missing ref (find_by (λ a. (a.symbol == "abc:X") && is_market ref a) hip3_assets))
meta_resolve_market-first_example = meta_resolve_market-first answers ref hip3_assets refl

meta_refresh-Reports_example : Reports degraded false true (meta_refresh degraded false true)
meta_refresh-Reports_example = meta_refresh-Reports degraded false true
