-- ===== src/Asset/Loads/Examples.antt =====
-- asset/meta_resolver.go: runs of a cache of metadata.
use Prim.Native.String.{String}
use hypersdk_go.Prelude.Int.{pos}
use hypersdk_go.Prelude.Maps.{lookup, insert}
use hypersdk_go.Prelude.{
  ℕ, ◌+◌, ◌≡◌, refl, true, false, some, none, List, [], ◌∷◌, length, ok, err, canceled, arith, ltb,
  if◌then◌else◌, nat_eq, ◌==◌, ◌||◌,
}
use hypersdk_go.Asset.{Asset, perp, source_failed, index_by, not_found}
use hypersdk_go.Asset.Loads.{
  Snapshot, index_assets, resolve_symbol, base, Cache, new_cache, is_empty, is_valid, served, joins,
  refused, join_or_lead, enter, finish, waiting, answered, wake, Event, enters, finishes, step, run,
}
use hypersdk_go.Asset.Loads.Joined.{joined-wake, waiting-loading}
use hypersdk_go.Asset.Loads.Kept.{kept-enter}

runs : Unit {0}
unfolding lookup insert index_by index_assets resolve_symbol is_valid enter finish wake step run
runs = tt

abbrev listed : String → ℕ → Asset
listed symbol id = record {
  id = pos id;
  symbol = symbol;
  name = symbol;
  kind = perp;
  sz_decimals = pos 2;
  dex = "";
}

abbrev ttl : ℕ
ttl = 100

abbrev old : Snapshot
old = index_assets (listed "BTC" 0 ∷ [])

abbrev new : Snapshot
new = index_assets (listed "BTC" 0 ∷ listed "ETH" 1 ∷ [])

-- The first load brings a snapshot, and a refresh starts another one.
abbrev history : List Event
history = enters none false 0 ∷ finishes 5 (ok old) ∷ enters none true 20 ∷ []

abbrev after : Cache
after = run base 100 new_cache history

refresh_joins : (enter base 100 none true 30 after).0 ≡ joins 1
unfolding runs
refresh_joins = refl

read_served : (enter base 100 none false 30 after).0 ≡ served old
unfolding runs
read_served = refl

done_refused : (enter base 100 (some canceled) true 30 after).0 ≡ refused canceled
unfolding runs
done_refused = refl

still_waiting : wake base 100 none true 1 30 after ≡ waiting
unfolding runs
still_waiting = refl

-- After a failed refresh a read falls back to the old snapshot, and the refresh fails.
fallback :
    (wake base 100 none false 1 50 (step base 100 after (finishes 40 (err (source_failed 7))))
      ≡ answered (ok old))
    × (wake base 100 none true 1 50 (step base 100 after (finishes 40 (err (source_failed 7))))
        ≡ answered (err (source_failed 7)))
    × (wake base 100 none false 1 105 (step base 100 after (finishes 40 (err (source_failed 7))))
        ≡ answered (err (source_failed 7)))
unfolding runs
fallback = (refl, refl, refl)

in_progress : after.loading ≡ some 1
unfolding runs
in_progress = refl

new_filled : is_empty new.assets ≡ false
unfolding runs
new_filled = refl

two_loads : length after.loads ≡ 2
unfolding runs
two_loads = refl

symbols :
    (resolve_symbol new "ETH" ≡ ok (listed "ETH" 1))
    × (resolve_symbol old "ETH" ≡ err (not_found "ETH"))
unfolding runs
symbols = (refl, refl)

joined-wake_example :
    wake base 100 none true 1 90 (
      run base 100
        (run base 100 after (enters none false 35 ∷ []))
        (finishes 40 (err (source_failed 7)) ∷ enters none true 50 ∷ finishes 60 (ok new) ∷ []))
    ≡ answered (err (source_failed 7))
joined-wake_example =
    joined-wake base 100 history (enters none false 35 ∷ [])
      (enters none true 50 ∷ finishes 60 (ok new) ∷ []) true 30 40 90 1 (err (source_failed 7))
      refresh_joins (tt, tt)

waiting-loading_example : after.loading ≡ some 1
waiting-loading_example =
    waiting-loading base 100 history true 1 30 (rw two_loads (omega arith)) still_waiting

kept-enter_example :
    (enter base 100 none false 139 (
      run base 100
        (step base 100 after (finishes 40 (ok new)))
        (enters none true 50 ∷ finishes 60 (err (source_failed 7)) ∷ []))).0
    ≡ (if ttl == 0 || ltb 139 (40 + ttl)
        then served new
        else let d =
            run base 100
              (step base 100 after (finishes 40 (ok new)))
              (enters none true 50 ∷ finishes 60 (err (source_failed 7)) ∷ []) in
          (join_or_lead d.loading d).0)
kept-enter_example =
    kept-enter base 100 1 40 139 new after
      (enters none true 50 ∷ finishes 60 (err (source_failed 7)) ∷ []) in_progress new_filled
      (tt, (tt, tt))
