-- ===== src/Asset/Examples.antt =====
-- asset/resolver.go: runs of the static resolver.
use Prim.Native.String.{String}
use hypersdk_go.Prelude.Int.{pos}
use hypersdk_go.Prelude.Texts.{parse_uint}
use hypersdk_go.Prelude.Maps.{lookup, insert}
use hypersdk_go.Prelude.{
  ℕ, ◌≡◌, refl, some, none, List, [], ◌∷◌, ok, err, canceled, ◌==◌, keep, string_eq,
}
use hypersdk_go.Asset.{
  Asset, MarketRef, int_eq, perp, spot, hip3, outcome, dex_required, hip3_namespace, dex_forbidden,
  outcome_notation, symbol_required, unsupported_kind, context_done, not_found, ambiguous_symbol,
  strip_prefix, is_outcome_symbol, in_namespace, validate_market_ref, index_by, new_static_resolver,
  unique, static_resolve_id, static_resolve, first_market, static_resolve_market,
}
use hypersdk_go.Asset.Index.{resolve-unique}

runs : Unit {0}
unfolding lookup insert parse_uint strip_prefix is_outcome_symbol in_namespace validate_market_ref
    index_by new_static_resolver static_resolve_id static_resolve first_market static_resolve_market
runs = tt

abbrev listed : String → ℕ → String → String → Asset
listed symbol id kind dex = record {
  id = pos id;
  symbol = symbol;
  name = symbol;
  kind = kind;
  sz_decimals = pos 2;
  dex = dex;
}

abbrev assets : List Asset
assets =
    listed "BTC" 0 perp ""
    ∷ listed "BTC" 10000 spot ""
    ∷ listed "ETH" 1 perp ""
    ∷ listed "dex:BTC" 110000 hip3 "dex"
    ∷ []

abbrev ref : String → String → String → MarketRef
ref symbol kind dex = record { symbol = symbol; kind = kind; dex = dex }

only_one : static_resolve (new_static_resolver assets) none "ETH" ≡ ok (listed "ETH" 1 perp "")
unfolding runs
only_one = refl

two_markets : static_resolve (new_static_resolver assets) none "BTC" ≡ err (ambiguous_symbol "BTC")
unfolding runs
two_markets = refl

done_context :
    static_resolve (new_static_resolver assets) (some canceled) "ETH" ≡ err (context_done canceled)
unfolding runs
done_context = refl

spot_market :
    static_resolve_market (new_static_resolver assets) none (ref "BTC" spot "")
    ≡ ok (listed "BTC" 10000 spot "")
unfolding runs
spot_market = refl

hip3_market :
    static_resolve_market (new_static_resolver assets) none (ref "dex:BTC" hip3 "dex")
    ≡ ok (listed "dex:BTC" 110000 hip3 "dex")
unfolding runs
hip3_market = refl

refusals :
    (validate_market_ref (ref "" spot "") ≡ some symbol_required)
    × (validate_market_ref (ref "BTC" perp "dex") ≡ some dex_forbidden)
    × (validate_market_ref (ref "#12" outcome "") ≡ some outcome_notation)
    × (validate_market_ref (ref "#11" outcome "") ≡ none)
    × (validate_market_ref (ref "BTC" hip3 "") ≡ some dex_required)
    × (validate_market_ref (ref "dex:" hip3 "dex") ≡ some hip3_namespace)
    × (validate_market_ref (ref "BTC" "margin" "") ≡ some unsupported_kind)
unfolding runs
refusals = (refl, refl, refl, refl, refl, refl, refl)

resolve-unique_example :
    static_resolve (new_static_resolver assets) none "BTC"
    ≡ unique (not_found "BTC") (ambiguous_symbol "BTC") (keep (λ a. a.symbol == "BTC") assets)
resolve-unique_example = resolve-unique assets "BTC"
