-- ===== src/Asset/Cached/Examples.antt =====
-- asset/resolver.go: runs of the cached resolver, over a static one.
use Prim.Native.String.{String}
use hypersdk_go.Prelude.Int.{pos, negsuc}
use hypersdk_go.Prelude.Texts.{parse_uint}
use hypersdk_go.Prelude.Maps.{lookup, insert}
use hypersdk_go.Prelude.{
  ℕ, ◌+◌, ◌≡◌, refl, some, none, List, [], ◌∷◌, ok, err, canceled, ltb, if◌then◌else◌, string_eq,
}
use hypersdk_go.Asset.{
  Asset, MarketRef, perp, hip3, strip_prefix, is_outcome_symbol, in_namespace, validate_market_ref,
  index_by, new_static_resolver, static_resolve_id, static_resolve, static_resolve_market,
  first_market, if_valid,
}
use hypersdk_go.Asset.Cached.{
  Source, CachedResolver, symbol_cache_key, market_cache_key, fetched, Clock, cached_resolve,
  refresh, cached_resolve_market, refresh_market, cached_resolve_id, store, Event, resolves,
  refreshes, resolves_market, stores, step, run, nil_resolver, invalid_cache_ttl,
  new_cached_resolver, started,
}
use hypersdk_go.Asset.Cached.Truth.{OnlyCancels, ask_market}
use hypersdk_go.Asset.Cached.Transparent.{
  cached_resolve-transparent, cached_resolve_market-transparent,
}
use hypersdk_go.Asset.Cached.Refreshed.{refresh-cached_resolve}

runs : Unit {0}
unfolding lookup insert parse_uint strip_prefix is_outcome_symbol in_namespace validate_market_ref
    index_by new_static_resolver static_resolve_id static_resolve first_market static_resolve_market
    symbol_cache_key market_cache_key cached_resolve refresh cached_resolve_market refresh_market
    cached_resolve_id store step run new_cached_resolver
runs = tt

abbrev listed : String → ℕ → String → String → Asset
listed symbol id kind dex = record {
  id = pos id;
  symbol = symbol;
  name = symbol;
  kind = kind;
  sz_decimals = pos 2;
  dex = dex;
}

abbrev static_source : List Asset → Source
static_source assets = record {
  resolve = static_resolve (new_static_resolver assets);
  resolve_market = some (static_resolve_market (new_static_resolver assets));
  resolve_id = some (static_resolve_id (new_static_resolver assets));
}

abbrev source : Source
source = static_source (listed "ETH" 1 perp "" ∷ listed "dex:BTC" 110000 hip3 "dex" ∷ [])

-- The static resolver gives no asset on a context that is done.
static_source-OnlyCancels : (assets : List Asset) → OnlyCancels (static_source assets)
unfolding static_resolve
static_source-OnlyCancels assets (some e) symbol a h = cc
static_source-OnlyCancels assets none symbol a h = h

abbrev cached : CachedResolver
cached = record { source = source; ttl = 100; entries = [] }

abbrev at : ℕ → Clock
at now = record { looked_up = now; stored = now + 1 }

abbrev ref : String → String → String → MarketRef
ref symbol kind dex = record { symbol = symbol; kind = kind; dex = dex }

-- Two calls overlap; the later one stores first.
abbrev calls : List Event
calls =
    resolves (at 0) none "ETH"
    ∷ resolves_market (at 1) none (ref "dex:BTC" hip3 "dex")
    ∷ stores 0
    ∷ refreshes (at 5) (some canceled) "ETH"
    ∷ stores 2
    ∷ []

setup :
    (new_cached_resolver none (pos 1) ≡ err nil_resolver)
    × (new_cached_resolver (some source) (negsuc 0) ≡ err invalid_cache_ttl)
    × (new_cached_resolver (some source) (pos 0) ≡ err invalid_cache_ttl)
    × (new_cached_resolver (some source) (pos 100) ≡ ok cached)
unfolding runs
setup = (refl, refl, refl, refl)

-- Both assets are stored, and answer before their time is up.
hits :
    (cached_resolve (run (started cached) calls).resolver (at 100) none "ETH"
      ≡ (ok (listed "ETH" 1 perp ""), none))
    × (cached_resolve_market
          (run (started cached) calls).resolver
          (at 101)
          none
          (ref "dex:BTC" hip3 "dex")
        ≡ (ok (listed "dex:BTC" 110000 hip3 "dex"), none))
unfolding runs
hits = (refl, refl)

expired :
    (cached_resolve (run (started cached) calls).resolver (at 101) none "ETH").1
    ≡ some ("symbol:ETH", record { asset = listed "ETH" 1 perp ""; expires = 202 })
unfolding runs
expired = refl

by_id : cached_resolve_id cached none (pos 1) ≡ ok (listed "ETH" 1 perp "")
unfolding runs
by_id = refl

-- Two valid references to different markets have one key when a DEX name has a colon.
one_key :
    (validate_market_ref (ref "a:a:a:Y" hip3 "a") ≡ none)
    × (validate_market_ref (ref "a:a:Y" hip3 "a:a") ≡ none)
    × (market_cache_key (ref "a:a:a:Y" hip3 "a") ≡ market_cache_key (ref "a:a:Y" hip3 "a:a"))
unfolding runs
one_key = (refl, refl, refl)

cached_resolve-transparent_example :
    (cached_resolve (run (started cached) calls).resolver (at 100) none "ETH").0
    ≡ source.resolve none "ETH"
cached_resolve-transparent_example =
    cached_resolve-transparent source (pos 100) cached calls setup.3 (static_source-OnlyCancels _)
      (tt, (refl, (tt, (tt, (tt, tt))))) (at 100) "ETH"

cached_resolve_market-transparent_example :
    (cached_resolve_market
      (run (started cached) calls).resolver
      (at 101)
      none
      (ref "dex:BTC" hip3 "dex")).0
    ≡ if_valid
        (validate_market_ref (ref "dex:BTC" hip3 "dex"))
        (ask_market source.resolve_market (ref "dex:BTC" hip3 "dex"))
cached_resolve_market-transparent_example =
    cached_resolve_market-transparent source (pos 100) cached calls setup.3
      (static_source-OnlyCancels _) (tt, (refl, (tt, (tt, (tt, tt))))) (at 101)
      (ref "dex:BTC" hip3 "dex") refl

refreshed : (refresh cached (at 0) none "ETH").0 ≡ ok (listed "ETH" 1 perp "")
unfolding runs
refreshed = refl

refresh-cached_resolve_example :
    cached_resolve (store (refresh cached (at 0) none "ETH").1 cached) (at 50) none "ETH" ≡ (
      if ltb 50 101
      then (ok (listed "ETH" 1 perp ""), none)
      else fetched (symbol_cache_key "ETH") 151 (source.resolve none "ETH"))
refresh-cached_resolve_example =
    refresh-cached_resolve cached (at 0) (at 50) none "ETH" (listed "ETH" 1 perp "") refreshed
