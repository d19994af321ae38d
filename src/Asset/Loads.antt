-- ===== src/Asset/Loads.antt =====
-- asset/meta_resolver.go: snapshots of metadata, and the loads that callers share. Each locked
-- region is a step.
pub mod Shared
pub mod Joined
pub mod Kept
mod Examples
use Prim.Native.String.{String}
use hypersdk_go.Prelude.Int.{ℤ}
use hypersdk_go.Prelude.Maps.{lookup}
use hypersdk_go.Prelude.{
  ℕ, ◌+◌, Bool, true, false, not, ◌&&◌, ◌||◌, Option, none, some, List, [], ◌∷◌, ◌++◌, length, set,
  get_elem?, nat_eq, ◌==◌, string_eq, ltb, if◌then◌else◌, Result, ok, err, Context, ContextError,
}
use hypersdk_go.Asset.{
  Asset, ResolveError, context_done, not_found, not_found_id, ambiguous_symbol, ambiguous_id,
  int_eq, or_nil, index_by, unique,
}

-- `metaSnapshot`
pub record Snapshot : Type 0 where
  pub assets : List Asset
  pub by_symbol : List (String × List Asset)
  pub by_id : List (ℤ × List Asset)

-- `indexAssets`
unfoldable pub index_assets : List Asset → Snapshot
index_assets assets = record {
  assets = assets;
  by_symbol = index_by (λ a. a.symbol) [] assets;
  by_id = index_by (λ a. a.id) [] assets;
}

-- `resolveSymbol`
unfoldable pub resolve_symbol : Snapshot → String → Result ResolveError Asset
resolve_symbol s symbol =
    unique (not_found symbol) (ambiguous_symbol symbol) (or_nil (lookup symbol s.by_symbol))

abbrev pub Loaded : Type 0
Loaded = Result ResolveError Snapshot

-- The base metadata, and the namespaces with an `optionalMetaCache`.
pub data Namespace : Type 0 where
  base optional : Namespace

-- `optionalMetaCache`; the base snapshot has the same fields but for `initialized`. A load is named
-- by its place in `loads`, which holds its result once `done` is closed.
pub record Cache : Type 0 where
  pub initialized : Bool
  pub held : Snapshot
  pub expires : Option ℕ
  pub loading : Option ℕ
  pub loads : List (Option Loaded)

abbrev pub new_cache : Cache
new_cache = record {
  initialized = false;
  held = record { assets = []; by_symbol = []; by_id = [] };
  expires = none;
  loading = none;
  loads = [];
}

-- `Before`, where `none` is the zero time.
abbrev pub before : ℕ → Option ℕ → Bool
before now none = false
before now (some t) = ltb now t

abbrev pub is_empty : List Asset → Bool
is_empty [] = true
is_empty (a ∷ more) = false

-- `snapshotValidLocked` and `optionalSnapshotValidLocked`
unfoldable pub is_valid : Namespace → ℕ → ℕ → Cache → Bool
is_valid base ttl now c = not (is_empty c.held.assets) && (ttl == 0 || before now c.expires)
is_valid optional ttl now c = c.initialized && (ttl == 0 || before now c.expires)

-- What a caller does after its first locked region.
pub data Entered : Type 0 where
  refused : ContextError → Entered
  served : Snapshot → Entered
  joins leads : ℕ → Entered

abbrev pub join_or_lead : Option ℕ → Cache → Entered × Cache
join_or_lead (some id) c = (joins id, c)
join_or_lead none c = (
  leads (length c.loads),
  record c { loading = some (length c.loads); loads = c.loads ++ none ∷ [] },
)

-- `snapshot` and `optionalSnapshot` up to the fetch, or to the wait for another caller's.
unfoldable pub enter : Namespace → ℕ → Context → Bool → ℕ → Cache → Entered × Cache
enter namespace ttl (some e) force now c = (refused e, c)
enter namespace ttl none force now c =
    if not force && is_valid namespace ttl now c
    then (served c.held, c)
    else join_or_lead c.loading c

-- A successful fetch replaces the snapshot.
abbrev pub replace : ℕ → ℕ → Loaded → Cache → Cache
replace ttl now (err e) c = c
replace ttl now (ok s) c = record c {
  initialized = true;
  held = s;
  expires = if ltb 0 ttl then some (now + ttl) else none;
}

-- The locked region after the fetch.
unfoldable pub finish : ℕ → ℕ → ℕ → Loaded → Cache → Cache
finish ttl id now loaded c = record (replace ttl now loaded c) {
  loading = none;
  loads = set c.loads id (some loaded);
}

pub data Woken : Type 0 where
  waiting : Woken
  answered : Loaded → Woken

abbrev pub outcome_of : Bool → Snapshot → Option (Option Loaded) → Woken
outcome_of fallback held (some (some (ok s))) = answered (ok s)
outcome_of fallback held (some (some (err e))) = answered (if fallback then ok held else err e)
outcome_of fallback held _ = waiting

-- The `select` of a caller that joined a load, which takes the context's branch where that is done.
unfoldable pub wake : Namespace → ℕ → Context → Bool → ℕ → ℕ → Cache → Woken
wake namespace ttl (some e) force id now c = answered (err (context_done e))
wake namespace ttl none force id now c =
    outcome_of (not force && is_valid namespace ttl now c) c.held (get_elem? c.loads id)

-- Steps that change a cache. The leader of the load in progress finishes it.
pub data Event : Type 0 where
  enters : Context → Bool → ℕ → Event
  finishes : ℕ → Loaded → Event

abbrev pub finish_running : Option ℕ → ℕ → ℕ → Loaded → Cache → Cache
finish_running none ttl now loaded c = c
finish_running (some id) ttl now loaded c = finish ttl id now loaded c

unfoldable pub step : Namespace → ℕ → Cache → Event → Cache
step namespace ttl c (enters ctx force now) = (enter namespace ttl ctx force now c).1
step namespace ttl c (finishes now loaded) = finish_running c.loading ttl now loaded c

unfoldable pub run : Namespace → ℕ → Cache → List Event → Cache
run namespace ttl c [] = c
run namespace ttl c (event ∷ more) = run namespace ttl (step namespace ttl c event) more
