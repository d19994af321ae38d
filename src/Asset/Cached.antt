-- ===== src/Asset/Cached.antt =====
-- asset/resolver.go: the resolver that keeps the answers of another one for a while.
pub mod Keys
pub mod Truth
pub mod Transparent
pub mod Refreshed
mod Examples
use Prim.Native.String.{String, ◌++◌}
use hypersdk_go.Prelude.Int.{ℤ, pos, negsuc}
use hypersdk_go.Prelude.Maps.{lookup, insert}
use hypersdk_go.Prelude.{
  ℕ, zero, suc, ◌+◌, Option, none, some, List, [], ◌∷◌, string_eq, ltb, if◌then◌else◌, Result, ok,
  err, Context, get_elem?,
}
use hypersdk_go.Asset.{
  Asset, MarketRef, MarketError, ResolveError, context_done, invalid_market, unsupported_source,
  validate_market_ref,
}

abbrev pub Answer : Type 0
Answer = Result ResolveError Asset

-- `Resolver`, with `MarketResolver` and `IDResolver` where the implementation has them.
pub record Source : Type 0 where
  pub resolve : Context → String → Answer
  pub resolve_market : Option (Context → MarketRef → Answer)
  pub resolve_id : Option (Context → ℤ → Answer)

-- `cacheEntry`
pub record CacheEntry : Type 0 where
  pub asset : Asset
  pub expires : ℕ

-- `CachedResolver`, without its clock
pub record CachedResolver : Type 0 where
  pub source : Source
  pub ttl : ℕ
  pub entries : List (String × CacheEntry)

unfoldable pub symbol_cache_key : String → String
symbol_cache_key symbol = "symbol:" ++ symbol

unfoldable pub market_cache_key : MarketRef → String
market_cache_key ref = "market:" ++ ref.kind ++ ":" ++ ref.dex ++ ":" ++ ref.symbol

-- The assignment to `entries` that a call makes at its end.
abbrev pub Write : Type 0
Write = Option (String × CacheEntry)

-- An asset of the source is stored until `expires`; an error is not.
abbrev pub fetched : String → ℕ → Answer → Answer × Write
fetched key expires (err e) = (err e, none)
fetched key expires (ok a) = (ok a, some (key, record { asset = a; expires = expires }))

-- An entry answers before it expires.
abbrev pub from_cache : ℕ → Option CacheEntry → Answer × Write → Answer × Write
from_cache now none otherwise = otherwise
from_cache now (some entry) otherwise =
    if ltb now entry.expires then (ok entry.asset, none) else otherwise

-- The two readings of the clock in a call: at the lookup and at the assignment.
pub record Clock : Type 0 where
  pub looked_up : ℕ
  pub stored : ℕ

-- `CachedResolver.Resolve`
unfoldable pub cached_resolve : CachedResolver → Clock → Context → String → Answer × Write
cached_resolve r clock (some e) symbol = (err (context_done e), none)
cached_resolve r clock none symbol =
    from_cache clock.looked_up (lookup (symbol_cache_key symbol) r.entries)
      (fetched (symbol_cache_key symbol) (clock.stored + r.ttl) (r.source.resolve none symbol))

-- `CachedResolver.Refresh`
unfoldable pub refresh : CachedResolver → Clock → Context → String → Answer × Write
refresh r clock ctx symbol =
    fetched (symbol_cache_key symbol) (clock.stored + r.ttl) (r.source.resolve ctx symbol)

-- The checks before a market of the source is asked for.
abbrev pub checked :
    Option MarketError
    → Option (Context → MarketRef → Answer)
    → ((Context → MarketRef → Answer) → Answer × Write)
    → Answer × Write
checked (some e) market call = (err (invalid_market e), none)
checked none none call = (err unsupported_source, none)
checked none (some market) call = call market

-- `CachedResolver.ResolveMarket`
unfoldable pub cached_resolve_market : CachedResolver → Clock → Context → MarketRef → Answer × Write
cached_resolve_market r clock (some e) ref = (err (context_done e), none)
cached_resolve_market r clock none ref =
    checked (validate_market_ref ref) r.source.resolve_market (λ market.
      from_cache clock.looked_up (lookup (market_cache_key ref) r.entries)
        (fetched (market_cache_key ref) (clock.stored + r.ttl) (market none ref)))

-- `CachedResolver.RefreshMarket`
unfoldable pub refresh_market : CachedResolver → Clock → Context → MarketRef → Answer × Write
refresh_market r clock (some e) ref = (err (context_done e), none)
refresh_market r clock none ref =
    checked (validate_market_ref ref) r.source.resolve_market
      (λ market. fetched (market_cache_key ref) (clock.stored + r.ttl) (market none ref))

-- `CachedResolver.ResolveID`
unfoldable pub cached_resolve_id : CachedResolver → Context → ℤ → Answer
cached_resolve_id r ctx id = elim r.source.resolve_id [
  | none ↦ err unsupported_source
  | some ask ↦ ask ctx id
]

-- `r.entries[key] = cacheEntry{…}`
unfoldable pub store : Write → CachedResolver → CachedResolver
store none r = r
store (some write) r = record {
  source = r.source;
  ttl = r.ttl;
  entries = insert write.0 write.1 r.entries;
}

-- Calls overlap: each reads the entries, and its assignment comes at any later time.
pub record Running : Type 0 where
  pub resolver : CachedResolver
  pub pending : List Write

pub data Event : Type 0 where
  resolves refreshes : Clock → Context → String → Event
  resolves_market refreshes_market : Clock → Context → MarketRef → Event
  stores : ℕ → Event

abbrev pub call_of : CachedResolver → Event → Write
call_of r (resolves clock ctx symbol) = (cached_resolve r clock ctx symbol).1
call_of r (refreshes clock ctx symbol) = (refresh r clock ctx symbol).1
call_of r (resolves_market clock ctx ref) = (cached_resolve_market r clock ctx ref).1
call_of r (refreshes_market clock ctx ref) = (refresh_market r clock ctx ref).1
call_of r (stores i) = none

abbrev pub write_at : Option Write → Write
write_at none = none
write_at (some w) = w

-- A pending assignment may be made more than once, which covers every order of the calls.
unfoldable pub step : Running → Event → Running
step s (stores i) = record {
  resolver = store (write_at (get_elem? s.pending i)) s.resolver;
  pending = s.pending;
}
step s event = record { resolver = s.resolver; pending = call_of s.resolver event ∷ s.pending }

unfoldable pub run : Running → List Event → Running
run s [] = s
run s (event ∷ more) = run (step s event) more

pub data SetupError : Type 0 where
  nil_resolver invalid_cache_ttl : SetupError

-- `NewCachedResolver`
unfoldable pub new_cached_resolver : Option Source → ℤ → Result SetupError CachedResolver
new_cached_resolver none ttl = err nil_resolver
new_cached_resolver (some source) (negsuc n) = err invalid_cache_ttl
new_cached_resolver (some source) (pos zero) = err invalid_cache_ttl
new_cached_resolver (some source) (pos (suc n)) =
    ok (record { source = source; ttl = suc n; entries = [] })

abbrev pub started : CachedResolver → Running
started r = record { resolver = r; pending = [] }
