-- ===== src/Asset/Lookups/Markets.antt =====
-- asset/meta_resolver.go: a market over the three namespaces, and a refresh of them.
use hypersdk_go.Prelude.Maps.{lookup}
use hypersdk_go.Prelude.{
  ◌≡◌, ◌⊎◌, inl, inr, refl, ap, ◌∙◌, Bool, true, false, ◌&&◌, Option, none, some, List, ◌==◌,
  string_eq, ok, err, ◌>>=◌, find_by, keep,
}
use hypersdk_go.Asset.{
  Asset, MarketRef, ResolveError, or_nil, validate_market_ref, if_valid, first_market,
}
use hypersdk_go.Asset.Index.{index-lookup, is_market, or_missing, first_market-find, find-keep}
use hypersdk_go.Asset.Loads.{Snapshot, Loaded, index_assets}
use hypersdk_go.Asset.Lookups.{Answers, snapshot_for, meta_resolve_market, meta_refresh}

found_in :
    (ref : MarketRef) (assets : List Asset)
    → first_market ref (or_nil (lookup ref.symbol (index_assets assets).by_symbol))
      ≡ or_missing ref (find_by (λ a. (a.symbol == ref.symbol) && is_market ref a) assets)
unfolding index_assets
found_in ref assets =
    ap (first_market ref) (index-lookup (λ a. a.symbol) assets ref.symbol)
    ∙ first_market-find ref (keep (λ a. a.symbol == ref.symbol) assets)
    ∙ ap (or_missing ref) (find-keep (λ a. a.symbol == ref.symbol) (is_market ref) assets)

-- When the namespace of a reference answers with the snapshot of a list of assets, ResolveMarket on
-- a live context refuses an invalid reference, and a valid one gives the first asset of this list
-- with its symbol, kind and DEX, and not_found when there is none.
pub meta_resolve_market-first :
    (r : Answers) (ref : MarketRef) (assets : List Asset)
    → snapshot_for r ref ≡ ok (index_assets assets)
    → meta_resolve_market r none ref
      ≡ if_valid
          (validate_market_ref ref)
          (or_missing ref (find_by (λ a. (a.symbol == ref.symbol) && is_market ref a) assets))
unfolding meta_resolve_market
meta_resolve_market-first r ref assets h =
    ap
      (λ l.
        if_valid (validate_market_ref ref)
          (l >>= λ s. first_market ref (or_nil (lookup ref.symbol s.by_symbol))))
      h
    ∙ ap (if_valid (validate_market_ref ref)) (found_in ref assets)

abbrev pub Succeeds : Loaded → Type 0
Succeeds l = (s : Snapshot) × (l ≡ ok s)

-- A load that is made only where its namespace takes part.
abbrev pub SucceedsIf : Bool → Loaded → Type 0
SucceedsIf takes_part l = (takes_part ≡ false) ⊎ Succeeds l

-- What an error of a refresh says of the three loads, and what none says.
abbrev pub Reports : Answers → Bool → Bool → Option ResolveError → Type 0
Reports r hip3_initialized outcome_initialized none =
    Succeeds r.base
    × SucceedsIf hip3_initialized r.hip3_snapshot
    × ((r.outcomes ≡ false) ⊎ SucceedsIf outcome_initialized r.outcome_snapshot)
Reports r hip3_initialized outcome_initialized (some e) =
    (r.base ≡ err e)
    ⊎ (Succeeds r.base × (hip3_initialized ≡ true) × (r.hip3_snapshot ≡ err e))
    ⊎ (Succeeds r.base
        × SucceedsIf hip3_initialized r.hip3_snapshot
        × (r.outcomes ≡ true)
        × (outcome_initialized ≡ true)
        × (r.outcome_snapshot ≡ err e))

optional_report :
    (b h o : Loaded) (outcomes hip3_initialized outcome_initialized : Bool)
    → let r : Answers = record {
      base = b;
      hip3_snapshot = h;
      outcome_snapshot = o;
      outcomes = outcomes;
    } in
      Reports r hip3_initialized outcome_initialized
        (meta_refresh r hip3_initialized outcome_initialized)
unfolding meta_refresh
optional_report (err e) h o outcomes hi oi = inl refl
optional_report (ok s) (err e) o outcomes true oi = inr (inl ((s, refl), refl, refl))
optional_report (ok s) (ok t) (err e) true true true =
    inr (inr ((s, refl), inr (t, refl), refl, refl, refl))
optional_report (ok s) (ok t) (ok u) true true true =
    ((s, refl), inr (t, refl), inr (inr (u, refl)))
optional_report (ok s) (ok t) o true true false = ((s, refl), inr (t, refl), inr (inl refl))
optional_report (ok s) (ok t) o false true oi = ((s, refl), inr (t, refl), inl refl)
optional_report (ok s) h (err e) true false true = inr (inr ((s, refl), inl refl, refl, refl, refl))
optional_report (ok s) h (ok u) true false true = ((s, refl), inl refl, inr (inr (u, refl)))
optional_report (ok s) h o true false false = ((s, refl), inl refl, inr (inl refl))
optional_report (ok s) h o false false oi = ((s, refl), inl refl, inl refl)

-- Refresh reports no error exactly when every load that it has to make succeeds: that of the base
-- namespace, that of HIP-3 where it was initialized, and that of outcomes where they are included
-- and were initialized. An error is that of the first of these loads, in this order, that failed.
pub meta_refresh-Reports :
    (r : Answers) (hip3_initialized outcome_initialized : Bool)
    → Reports r hip3_initialized outcome_initialized
        (meta_refresh r hip3_initialized outcome_initialized)
meta_refresh-Reports r hip3_initialized outcome_initialized =
    optional_report r.base r.hip3_snapshot r.outcome_snapshot r.outcomes hip3_initialized
      outcome_initialized
