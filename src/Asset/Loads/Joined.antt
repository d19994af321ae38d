-- ===== src/Asset/Loads/Joined.antt =====
-- asset/meta_resolver.go: what a caller that joined a load is told.
use hypersdk_go.Prelude.{
  ℕ, ◌<◌, ◌≡◌, refl, ap, ◌∙◌, Bool, true, false, not, ◌&&◌, Option, none, some, List, [], ◌∷◌,
  length, get_elem?, All, if◌then◌else◌, ok, err, Context,
}
use hypersdk_go.Asset.Loads.{
  Snapshot, Loaded, Namespace, Cache, new_cache, is_valid, Entered, served, joins, join_or_lead,
  enter, waiting, answered, outcome_of, wake, Event, enters, finishes, finish_running, step, run,
}
use hypersdk_go.Asset.Loads.Shared.{
  IsOrderly, run-IsOrderly, new-IsOrderly, HasResult, run-HasResult, finished-HasResult,
  get_elem-some, step-IsOrderly,
}

abbrev joined_of : Entered → Option ℕ
joined_of (joins id) = some id
joined_of _ = none

told-loading :
    (loading : Option ℕ) (c : Cache) (id : ℕ)
    → (join_or_lead loading c).0 ≡ joins id
    → loading ≡ some id
told-loading none c id h = cc
told-loading (some j) c id h = ap joined_of h

joined-loading :
    (valid : Bool) (c : Cache) (id : ℕ)
    → (if valid then (served c.held, c) else join_or_lead c.loading c).0 ≡ joins id
    → c.loading ≡ some id
joined-loading true c id h = cc
joined-loading false c id h = told-loading c.loading c id h

enter-joins :
    (namespace : Namespace) (ttl : ℕ) (force : Bool) (now id : ℕ) (c : Cache)
    → (enter namespace ttl none force now c).0 ≡ joins id
    → c.loading ≡ some id
unfolding enter
enter-joins namespace ttl force now id c h =
    joined-loading (not force && is_valid namespace ttl now c) c id h

abbrev IsEnter : Event → Type 0
IsEnter (enters ctx force now) = Unit
IsEnter (finishes now loaded) = ⊥

led-loading :
    (loading : Option ℕ) (id : ℕ) (c : Cache)
    → c.loading ≡ loading
    → loading ≡ some id
    → (join_or_lead loading c).1.loading ≡ some id
led-loading none id c e h = cc
led-loading (some j) id c e h = e ∙ h

entered-loading :
    (valid : Bool) (id : ℕ) (c : Cache)
    → c.loading ≡ some id
    → (if valid then (served c.held, c) else join_or_lead c.loading c).1.loading ≡ some id
entered-loading true id c h = h
entered-loading false id c h = led-loading c.loading id c refl h

enter-loading :
    (namespace : Namespace) (ttl : ℕ) (ctx : Context) (force : Bool) (now id : ℕ) (c : Cache)
    → c.loading ≡ some id
    → (enter namespace ttl ctx force now c).1.loading ≡ some id
unfolding enter
enter-loading namespace ttl (some e) force now id c h = h
enter-loading namespace ttl none force now id c h =
    entered-loading (not force && is_valid namespace ttl now c) id c h

wake-HasResult :
    (namespace : Namespace) (ttl id now : ℕ) (loaded : Loaded) (c : Cache)
    → HasResult id loaded c
    → wake namespace ttl none true id now c ≡ answered loaded
unfolding wake
wake-HasResult namespace ttl id now (ok s) c h = rw h refl
wake-HasResult namespace ttl id now (err e) c h = rw h refl

callers-loading :
    (namespace : Namespace) (ttl id : ℕ) (c : Cache) (callers : List Event)
    → All IsEnter callers
    → c.loading ≡ some id
    → (run namespace ttl c callers).loading ≡ some id
unfolding run step
callers-loading namespace ttl id c [] all h = h
callers-loading namespace ttl id c (enters ctx force now ∷ more) all h =
    callers-loading namespace ttl id (enter namespace ttl ctx force now c).1 more all.1
      (enter-loading namespace ttl ctx force now id c h)
callers-loading namespace ttl id c (finishes now loaded ∷ more) all h = absurd all.0

-- A caller that is told to join a load, in any state that calls and loads lead to, waits for the
-- result that this load finishes with, whoever calls before that: from then on, whatever
-- happens, an explicit refresh is told exactly this result, also when it is an error.
pub joined-wake :
    (namespace : Namespace) (ttl : ℕ) (earlier callers later : List Event) (force : Bool)
    (called finished woken id : ℕ) (loaded : Loaded)
    → (enter namespace ttl none force called (run namespace ttl new_cache earlier)).0 ≡ joins id
    → All IsEnter callers
    → wake namespace ttl none true id woken (
        run namespace ttl
          (run namespace ttl (run namespace ttl new_cache earlier) callers)
          (finishes finished loaded ∷ later))
      ≡ answered loaded
unfolding run step
joined-wake namespace ttl earlier callers later force called finished woken id loaded joined all =
    let c = run namespace ttl new_cache earlier in
    let d = run namespace ttl c callers in
    let orderly : IsOrderly d =
      run-IsOrderly namespace ttl c callers
        (run-IsOrderly namespace ttl new_cache earlier new-IsOrderly) in
    let running : d.loading ≡ some id =
      callers-loading namespace ttl id c callers all
        (enter-joins namespace ttl force called id c joined) in
    wake-HasResult namespace ttl id woken loaded _ (
      run-HasResult namespace ttl id loaded (finish_running d.loading ttl finished loaded d) later
        (step-IsOrderly namespace ttl d (finishes finished loaded) orderly)
        (finished-HasResult ttl finished id loaded d running orderly))

awaited :
    (fallback : Bool) (held : Snapshot) (entry : Option Loaded) (found : Option (Option Loaded))
    → found ≡ some entry
    → outcome_of fallback held found ≡ waiting
    → found ≡ some none
awaited fallback held none found e h = e
awaited fallback held (some (ok s)) found e h =
    let told : answered (ok s) ≡ waiting = rw e at h in cc
awaited fallback held (some (err x)) found e h =
    let told : answered (if fallback then ok held else err x) ≡ waiting = rw e at h in cc

-- A caller that still waits for a load that was given out, in any state that calls and loads lead
-- to, waits for the one load in progress: no load is lost, and no two are in progress.
pub waiting-loading :
    (namespace : Namespace) (ttl : ℕ) (events : List Event) (force : Bool) (id now : ℕ)
    → id < length (run namespace ttl new_cache events).loads
    → wake namespace ttl none force id now (run namespace ttl new_cache events) ≡ waiting
    → (run namespace ttl new_cache events).loading ≡ some id
unfolding wake
waiting-loading namespace ttl events force id now given h =
    let c = run namespace ttl new_cache events in
    let entry = get_elem-some c.loads id given in
    (run-IsOrderly namespace ttl new_cache events new-IsOrderly).running id (
      awaited (not force && is_valid namespace ttl now c) c.held entry.0 (get_elem? c.loads id)
        entry.1 h)
