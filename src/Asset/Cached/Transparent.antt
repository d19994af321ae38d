-- ===== src/Asset/Cached/Transparent.antt =====
-- asset/resolver.go: what the cached resolver answers, against its source.
use Prim.Native.String.{String}
use hypersdk_go.Prelude.Int.{ℤ, pos, negsuc}
use hypersdk_go.Prelude.Maps.{lookup}
use hypersdk_go.Prelude.{
  ℕ, zero, suc, ◌+◌, ◌≡◌, refl, ap, sym, ◌∙◌, true, string_eq, Option, none, some, List, [], ◌∷◌,
  ltb, Result, ok, err, Context, get_elem?, All, Bool-cases, inl, inr,
}
use hypersdk_go.Asset.{MarketRef, MarketError, validate_market_ref, if_valid}
use hypersdk_go.Asset.Cached.{
  Answer, Source, CacheEntry, CachedResolver, symbol_cache_key, market_cache_key, Write, fetched,
  from_cache, Clock, cached_resolve, cached_resolve_market, store, Running, Event, resolves,
  refreshes, resolves_market, refreshes_market, stores, write_at, step, run, SetupError,
  new_cached_resolver, started, checked,
}
use hypersdk_go.Asset.Cached.Keys.{without_colon}
use hypersdk_go.Asset.Cached.Truth.{
  OnlyCancels, IsPlain, ask_market, TrueWrite, TrueEntries, store-TrueEntries, resolve-TrueWrite,
  refresh-TrueWrite, resolve_market-TrueWrite, refresh_market-TrueWrite,
}

-- Every entry, and every assignment that is still to come, is true of the source.
abbrev IsTransparent : Running → Type 0
IsTransparent s =
    TrueEntries s.resolver.source s.resolver.entries × All (TrueWrite s.resolver.source) s.pending

write_at-TrueWrite :
    (source : Source) (pending : List Write) (i : ℕ)
    → All (TrueWrite source) pending
    → TrueWrite source (write_at (get_elem? pending i))
write_at-TrueWrite source [] i h = tt
write_at-TrueWrite source (w ∷ more) zero h = h.0
write_at-TrueWrite source (w ∷ more) (suc i) h = write_at-TrueWrite source more i h.1

store-source : (w : Write) (r : CachedResolver) → (store w r).source ≡ r.source
unfolding store
store-source none r = refl
store-source (some w) r = refl

step-source : (s : Running) (event : Event) → (step s event).resolver.source ≡ s.resolver.source
unfolding step
step-source s (stores i) = store-source (write_at (get_elem? s.pending i)) s.resolver
step-source s (resolves clock ctx symbol) = refl
step-source s (refreshes clock ctx symbol) = refl
step-source s (resolves_market clock ctx ref) = refl
step-source s (refreshes_market clock ctx ref) = refl

stored-IsTransparent :
    (w : Write) (r : CachedResolver) (pending : List Write)
    → TrueWrite r.source w
    → IsTransparent (record { resolver = r; pending = pending })
    → IsTransparent (record { resolver = store w r; pending = pending })
unfolding store
stored-IsTransparent none r pending h t = t
stored-IsTransparent (some w) r pending h t = (store-TrueEntries (some w) r h t.0, t.1)

step-IsTransparent :
    (s : Running) (event : Event)
    → OnlyCancels s.resolver.source
    → IsPlain event
    → IsTransparent s
    → IsTransparent (step s event)
unfolding step
step-IsTransparent s (stores i) only plain t =
    stored-IsTransparent (write_at (get_elem? s.pending i)) s.resolver s.pending
      (write_at-TrueWrite s.resolver.source s.pending i t.1) t
step-IsTransparent s (resolves clock ctx symbol) only plain t =
    (t.0, (resolve-TrueWrite s.resolver clock ctx symbol, t.1))
step-IsTransparent s (refreshes clock ctx symbol) only plain t =
    (t.0, (refresh-TrueWrite s.resolver clock ctx symbol only, t.1))
step-IsTransparent s (resolves_market clock ctx ref) only plain t =
    (t.0, (resolve_market-TrueWrite s.resolver clock ctx ref plain, t.1))
step-IsTransparent s (refreshes_market clock ctx ref) only plain t =
    (t.0, (refresh_market-TrueWrite s.resolver clock ctx ref plain, t.1))

run-IsTransparent :
    (s : Running) (events : List Event)
    → OnlyCancels s.resolver.source
    → All IsPlain events
    → IsTransparent s
    → IsTransparent (run s events)
unfolding run
run-IsTransparent s [] only plain t = t
run-IsTransparent s (event ∷ more) only plain t =
    run-IsTransparent (step s event) more (rw (step-source s event) only) plain.1
      (step-IsTransparent s event only plain.0 t)

run-source :
    (s : Running) (events : List Event) → (run s events).resolver.source ≡ s.resolver.source
unfolding run
run-source s [] = refl
run-source s (event ∷ more) = run-source (step s event) more ∙ step-source s event

abbrev value_or : CachedResolver → Result SetupError CachedResolver → CachedResolver
value_or r (err e) = r
value_or r (ok value) = value

new-IsTransparent :
    (source : Source) (ttl : ℤ) (r : CachedResolver)
    → new_cached_resolver (some source) ttl ≡ ok r
    → (r.source ≡ source) × IsTransparent (started r)
unfolding new_cached_resolver lookup
new-IsTransparent source (pos zero) r h = cc
new-IsTransparent source (negsuc n) r h = cc
new-IsTransparent source (pos (suc n)) r h =
    rw (← ap (value_or r) h) (refl, ((λ key entry found. cc), tt))

fetched-answer :
    (key : String) (expires : ℕ) (answer : Answer) → (fetched key expires answer).0 ≡ answer
fetched-answer key expires (ok a) = refl
fetched-answer key expires (err e) = refl

from_cache-answer :
    (now : ℕ) (found : Option CacheEntry) (otherwise : Answer × Write) (answer : Answer)
    → ((entry : CacheEntry) → found ≡ some entry → answer ≡ ok entry.asset)
    → otherwise.0 ≡ answer
    → (from_cache now found otherwise).0 ≡ answer
from_cache-answer now none otherwise answer cached asked = asked
from_cache-answer now (some entry) otherwise answer cached asked =
    elim (Bool-cases (ltb now entry.expires)) [
      | inl fresh ↦ rw fresh (sym (cached entry refl))
      | inr stale ↦ rw stale asked
    ]

true-resolve :
    (r : CachedResolver) (clock : Clock) (symbol : String)
    → TrueEntries r.source r.entries
    → (cached_resolve r clock none symbol).0 ≡ r.source.resolve none symbol
unfolding cached_resolve
true-resolve r clock symbol t =
    from_cache-answer clock.looked_up (lookup (symbol_cache_key symbol) r.entries) _
      (r.source.resolve none symbol)
      (λ entry found. (t (symbol_cache_key symbol) entry found).symbols symbol refl)
      (fetched-answer (symbol_cache_key symbol) (clock.stored + r.ttl)
        (r.source.resolve none symbol))

checked-answer :
    (ref : MarketRef) (verdict : Option MarketError)
    (market : Option (Context → MarketRef → Answer))
    (call : (Context → MarketRef → Answer) → Answer × Write)
    → ((m : Context → MarketRef → Answer)
        → verdict ≡ none
        → market ≡ some m
        → (call m).0 ≡ m none ref)
    → (checked verdict market call).0 ≡ if_valid verdict (ask_market market ref)
checked-answer ref (some e) market call h = refl
checked-answer ref none none call h = refl
checked-answer ref none (some m) call h = h m refl refl

true-resolve_market :
    (r : CachedResolver) (clock : Clock) (ref : MarketRef)
    → without_colon ref.dex ≡ true
    → TrueEntries r.source r.entries
    → (cached_resolve_market r clock none ref).0
      ≡ if_valid (validate_market_ref ref) (ask_market r.source.resolve_market ref)
unfolding cached_resolve_market
true-resolve_market r clock ref plain t =
    checked-answer ref (validate_market_ref ref) r.source.resolve_market _ (λ m valid has.
      from_cache-answer clock.looked_up (lookup (market_cache_key ref) r.entries) _ (m none ref)
        (λ entry found.
          sym (ap (λ asked. ask_market asked ref) has)
          ∙ (t (market_cache_key ref) entry found).markets ref valid plain refl)
        (fetched-answer (market_cache_key ref) (clock.stored + r.ttl) (m none ref)))

module _ (source : Source) (ttl : ℤ) (r : CachedResolver) (events : List Event)
    (made : new_cached_resolver (some source) ttl ≡ ok r) (only : OnlyCancels source)
    (plain : All IsPlain events) where
  reached : (run (started r) events).resolver.source ≡ source
  reached = run-source (started r) events ∙ (new-IsTransparent source ttl r made).0

  reached-TrueEntries :
      TrueEntries (run (started r) events).resolver.source (run (started r) events).resolver.entries
  reached-TrueEntries =
      (run-IsTransparent (started r) events (rw (new-IsTransparent source ttl r made).0 only) plain
        (new-IsTransparent source ttl r made).1).0

  -- For a source whose answers do not change, and whose context can only turn an asset into an
  -- error, and calls that name no DEX with a colon: after any overlapping calls of a new cached
  -- resolver, at any time, its Resolve on a live context answers what the source answers.
  pub cached_resolve-transparent :
      (clock : Clock) (symbol : String)
      → (cached_resolve (run (started r) events).resolver clock none symbol).0
        ≡ source.resolve none symbol
  cached_resolve-transparent clock symbol =
      true-resolve (run (started r) events).resolver clock symbol reached-TrueEntries
      ∙ ap (λ s. s.resolve none symbol) reached

  -- For a source whose answers do not change, and whose context can only turn an asset into an
  -- error, and calls and a reference that name no DEX with a colon: after any overlapping calls of
  -- a new cached resolver, at any time, its ResolveMarket on a live context refuses an invalid
  -- reference, and answers a valid one as the source does.
  pub cached_resolve_market-transparent :
      (clock : Clock) (ref : MarketRef)
      → without_colon ref.dex ≡ true
      → (cached_resolve_market (run (started r) events).resolver clock none ref).0
        ≡ if_valid (validate_market_ref ref) (ask_market source.resolve_market ref)
  cached_resolve_market-transparent clock ref plain_ref =
      true-resolve_market (run (started r) events).resolver clock ref plain_ref reached-TrueEntries
      ∙ ap (λ s. if_valid (validate_market_ref ref) (ask_market s.resolve_market ref)) reached
