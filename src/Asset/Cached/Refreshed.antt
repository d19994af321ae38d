-- ===== src/Asset/Cached/Refreshed.antt =====
-- asset/resolver.go: what follows a refresh of the cached resolver.
use Prim.Native.String.{String}
use hypersdk_go.Prelude.Maps.{lookup-insert}
use hypersdk_go.Prelude.{
  ℕ, ◌+◌, ◌≡◌, refl, ap, ==_refl, string_eq, none, ltb, if◌then◌else◌, ok, err, Context,
}
use hypersdk_go.Asset.{Asset}
use hypersdk_go.Asset.Cached.{
  Answer, CachedResolver, symbol_cache_key, fetched, Clock, cached_resolve, refresh, store,
}

abbrev asset_or : Asset → Answer → Asset
asset_or a (ok b) = b
asset_or a (err e) = a

held :
    (r : CachedResolver) (expires : ℕ) (clock : Clock) (symbol : String) (a : Asset)
    (answer : Answer)
    → (fetched (symbol_cache_key symbol) expires answer).0 ≡ ok a
    → cached_resolve
        (store (fetched (symbol_cache_key symbol) expires answer).1 r)
        clock
        none
        symbol
      ≡ (if ltb clock.looked_up expires
          then (ok a, none)
          else fetched
              (symbol_cache_key symbol)
              (clock.stored + r.ttl)
              (r.source.resolve none symbol))
unfolding cached_resolve store
held r expires clock symbol a (err e) h = cc
held r expires clock symbol a (ok b) h =
    let key = symbol_cache_key symbol in
    rw
      (
        lookup-insert key key (record { asset = b; expires = expires }) r.entries,
        ==_refl key,
        ap (asset_or a) h,
      )
      refl

-- An asset that Refresh returned is what Resolve returns, without its source, while the clock is
-- before the end of its TTL; from then on Resolve returns what the source answers, and stores it.
pub refresh-cached_resolve :
    (r : CachedResolver) (asked clock : Clock) (ctx : Context) (symbol : String) (a : Asset)
    → (refresh r asked ctx symbol).0 ≡ ok a
    → cached_resolve (store (refresh r asked ctx symbol).1 r) clock none symbol ≡ (
        if ltb clock.looked_up (asked.stored + r.ttl)
        then (ok a, none)
        else fetched
            (symbol_cache_key symbol)
            (clock.stored + r.ttl)
            (r.source.resolve none symbol))
unfolding refresh
refresh-cached_resolve r asked clock ctx symbol a h =
    held r (asked.stored + r.ttl) clock symbol a (r.source.resolve ctx symbol) h
