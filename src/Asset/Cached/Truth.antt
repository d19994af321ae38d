-- ===== src/Asset/Cached/Truth.antt =====
-- asset/resolver.go: what a call of the cached resolver stores.
use Prim.Native.String.{String}
use hypersdk_go.Prelude.Maps.{lookup, lookup-insert}
use hypersdk_go.Prelude.{
  ℕ, ◌+◌, ◌≡◌, refl, ap, sym, ◌∙◌, true, ◌==◌, string_eq, Option, none, some, List, ltb, ok, err,
  Context, Bool-cases, inl, inr,
}
use hypersdk_go.Asset.{Asset, MarketRef, MarketError, unsupported_source, validate_market_ref}
use hypersdk_go.Asset.Cached.{
  Answer, Source, CacheEntry, CachedResolver, symbol_cache_key, market_cache_key, Write, fetched,
  from_cache, Clock, cached_resolve, refresh, cached_resolve_market, refresh_market, store, Event,
  resolves_market, refreshes_market, checked,
}
use hypersdk_go.Asset.Cached.Keys.{
  without_colon, symbol_key-injective, symbol_key-market_key, market_key-injective,
}

-- A source whose context can only turn an answer into an error.
abbrev pub OnlyCancels : Source → Type 0
OnlyCancels source =
    (ctx : Context) (symbol : String) (a : Asset)
    → source.resolve ctx symbol ≡ ok a
    → source.resolve none symbol ≡ ok a

-- An event that names no DEX with a colon.
abbrev pub IsPlain : Event → Type 0
IsPlain (resolves_market clock ctx ref) = without_colon ref.dex ≡ true
IsPlain (refreshes_market clock ctx ref) = without_colon ref.dex ≡ true
IsPlain _ = Unit

-- The source's answer to a market, where it answers markets.
abbrev pub ask_market : Option (Context → MarketRef → Answer) → MarketRef → Answer
ask_market none ref = err unsupported_source
ask_market (some market) ref = market none ref

-- An entry is what the source answers to each question with its key.
pub record IsTrue (source : Source) (key : String) (a : Asset) : Type 0 where
  pub symbols :
      (symbol : String) → key ≡ symbol_cache_key symbol → source.resolve none symbol ≡ ok a
  pub markets :
      (ref : MarketRef)
      → validate_market_ref ref ≡ none
      → without_colon ref.dex ≡ true
      → key ≡ market_cache_key ref
      → ask_market source.resolve_market ref ≡ ok a

abbrev from_option {ℓ} : {A : Type ℓ} → A → Option A → A
from_option a none = a
from_option a (some b) = b

abbrev pub TrueWrite : Source → Write → Type 0
TrueWrite source none = Unit
TrueWrite source (some w) = IsTrue source w.0 w.1.asset

abbrev pub TrueEntries : Source → List (String × CacheEntry) → Type 0
TrueEntries source entries =
    (key : String) (entry : CacheEntry)
    → lookup key entries ≡ some entry
    → IsTrue source key entry.asset

symbol-IsTrue :
    (source : Source) (symbol : String) (a : Asset)
    → source.resolve none symbol ≡ ok a
    → IsTrue source (symbol_cache_key symbol) a
symbol-IsTrue source symbol a h = record {
  symbols =
      λ other same. ap (source.resolve none) (symbol_key-injective other symbol (sym same)) ∙ h;
  markets = λ ref valid plain same. absurd (symbol_key-market_key symbol ref same);
}

market-IsTrue :
    (source : Source) (ref : MarketRef) (a : Asset)
    → validate_market_ref ref ≡ none
    → without_colon ref.dex ≡ true
    → ask_market source.resolve_market ref ≡ ok a
    → IsTrue source (market_cache_key ref) a
market-IsTrue source ref a valid plain h = record {
  symbols = λ symbol same. absurd (symbol_key-market_key symbol ref (sym same));
  markets = λ other valid' plain' same.
      ap (ask_market source.resolve_market)
        (market_key-injective other ref valid' valid plain' plain (sym same))
      ∙ h;
}

fetched-TrueWrite :
    (source : Source) (key : String) (expires : ℕ) (answer : Answer)
    → ((a : Asset) → answer ≡ ok a → IsTrue source key a)
    → TrueWrite source (fetched key expires answer).1
fetched-TrueWrite source key expires (ok a) h = h a refl
fetched-TrueWrite source key expires (err e) h = tt

from_cache-TrueWrite :
    (source : Source) (now : ℕ) (found : Option CacheEntry) (otherwise : Answer × Write)
    → TrueWrite source otherwise.1
    → TrueWrite source (from_cache now found otherwise).1
from_cache-TrueWrite source now none otherwise h = h
from_cache-TrueWrite source now (some entry) otherwise h =
    elim (Bool-cases (ltb now entry.expires)) [ inl fresh ↦ rw fresh tt | inr stale ↦ rw stale h ]

pub store-TrueEntries :
    (w : Write) (r : CachedResolver)
    → TrueWrite r.source w
    → TrueEntries r.source r.entries
    → TrueEntries r.source (store w r).entries
unfolding store
store-TrueEntries none r t e = e
store-TrueEntries (some w) r t e = λ key entry found. elim (Bool-cases (w.0 == key)) [
  | inl same ↦
      let here : some w.1 ≡ some entry = rw (lookup-insert w.0 key w.1 r.entries, same) at found in
      let stored : w.1 ≡ entry = ap (from_option w.1) here in
      rw (← (string_eq.equals_iff w.0 key).0 same, ← stored) t
  | inr other ↦ e key entry (rw (lookup-insert w.0 key w.1 r.entries, other) at found)
]

pub resolve-TrueWrite :
    (r : CachedResolver) (clock : Clock) (ctx : Context) (symbol : String)
    → TrueWrite r.source (cached_resolve r clock ctx symbol).1
unfolding cached_resolve
resolve-TrueWrite r clock (some e) symbol = tt
resolve-TrueWrite r clock none symbol =
    from_cache-TrueWrite r.source clock.looked_up (lookup (symbol_cache_key symbol) r.entries)
      (fetched (symbol_cache_key symbol) (clock.stored + r.ttl) (r.source.resolve none symbol))
      (fetched-TrueWrite r.source (symbol_cache_key symbol) (clock.stored + r.ttl)
        (r.source.resolve none symbol) (symbol-IsTrue r.source symbol))

pub refresh-TrueWrite :
    (r : CachedResolver) (clock : Clock) (ctx : Context) (symbol : String)
    → OnlyCancels r.source
    → TrueWrite r.source (refresh r clock ctx symbol).1
unfolding refresh
refresh-TrueWrite r clock ctx symbol only =
    fetched-TrueWrite r.source (symbol_cache_key symbol) (clock.stored + r.ttl)
      (r.source.resolve ctx symbol) (λ a h. symbol-IsTrue r.source symbol a (only ctx symbol a h))

module _ (source : Source) (ref : MarketRef) (plain : without_colon ref.dex ≡ true) where
  checked-TrueWrite :
      (verdict : Option MarketError) (market : Option (Context → MarketRef → Answer))
      (call : (Context → MarketRef → Answer) → Answer × Write)
      → ((m : Context → MarketRef → Answer)
          → verdict ≡ none
          → market ≡ some m
          → TrueWrite source (call m).1)
      → TrueWrite source (checked verdict market call).1
  checked-TrueWrite (some e) market call h = tt
  checked-TrueWrite none none call h = tt
  checked-TrueWrite none (some m) call h = h m refl refl

  fetched_market-TrueWrite :
      (expires : ℕ) (m : Context → MarketRef → Answer)
      → validate_market_ref ref ≡ none
      → source.resolve_market ≡ some m
      → TrueWrite source (fetched (market_cache_key ref) expires (m none ref)).1
  fetched_market-TrueWrite expires m valid has =
      fetched-TrueWrite source (market_cache_key ref) expires (m none ref)
        (λ a h. market-IsTrue source ref a valid plain (ap (λ found. ask_market found ref) has ∙ h))

pub resolve_market-TrueWrite :
    (r : CachedResolver) (clock : Clock) (ctx : Context) (ref : MarketRef)
    → without_colon ref.dex ≡ true
    → TrueWrite r.source (cached_resolve_market r clock ctx ref).1
unfolding cached_resolve_market
resolve_market-TrueWrite r clock (some e) ref plain = tt
resolve_market-TrueWrite r clock none ref plain =
    checked-TrueWrite r.source ref plain (validate_market_ref ref) r.source.resolve_market _
      (λ m valid has.
        from_cache-TrueWrite r.source clock.looked_up (lookup (market_cache_key ref) r.entries)
          (fetched (market_cache_key ref) (clock.stored + r.ttl) (m none ref))
          (fetched_market-TrueWrite r.source ref plain (clock.stored + r.ttl) m valid has))

pub refresh_market-TrueWrite :
    (r : CachedResolver) (clock : Clock) (ctx : Context) (ref : MarketRef)
    → without_colon ref.dex ≡ true
    → TrueWrite r.source (refresh_market r clock ctx ref).1
unfolding refresh_market
refresh_market-TrueWrite r clock (some e) ref plain = tt
refresh_market-TrueWrite r clock none ref plain =
    checked-TrueWrite r.source ref plain (validate_market_ref ref) r.source.resolve_market _
      (λ m valid has.
        fetched_market-TrueWrite r.source ref plain (clock.stored + r.ttl) m valid has)
