-- ===== src/Asset/Loads/Shared.antt =====
-- asset/meta_resolver.go: callers that share a load.
use hypersdk_go.Prelude.{
  ℕ, zero, suc, ◌<◌, ◌≡◌, refl, ◌∙◌, Bool, true, false, not, ◌&&◌, ◌==◌, nat_eq, Option, none, some,
  List, [], ◌∷◌, ◌++◌, length, set, get_elem?, if◌then◌else◌, arith, ==_refl,
}
use hypersdk_go.Asset.Loads.{
  Loaded, Namespace, Cache, new_cache, is_valid, served, join_or_lead, enter, finish, Event, enters,
  finishes, finish_running, step, run,
}

module _ {ℓ} {A : Type ℓ} where
  get_elem-snoc :
      (xs : List A) (v : A) (i : ℕ)
      → get_elem? (xs ++ v ∷ []) i ≡ (if i == length xs then some v else get_elem? xs i)
  get_elem-snoc [] v zero = ground arith
  get_elem-snoc [] v (suc i) = ground arith
  get_elem-snoc (x ∷ xs) v zero = ground arith
  get_elem-snoc (x ∷ xs) v (suc i) = ground (arith, get_elem-snoc xs v i)

  get_elem-set :
      (xs : List A) (i j : ℕ) (v x : A)
      → get_elem? xs i ≡ some x
      → get_elem? (set xs i v) j ≡ (if i == j then some v else get_elem? xs j)
  get_elem-set [] i j v x h = cc
  get_elem-set (y ∷ ys) zero zero v x h = ground arith
  get_elem-set (y ∷ ys) zero (suc j) v x h = ground arith
  get_elem-set (y ∷ ys) (suc i) zero v x h = ground arith
  get_elem-set (y ∷ ys) (suc i) (suc j) v x h = ground (arith, get_elem-set ys i j v x h)

  get_elem-length : (xs : List A) (i : ℕ) (x : A) → get_elem? xs i ≡ some x → i < length xs
  get_elem-length [] i x h = cc
  get_elem-length (y ∷ ys) zero x h = omega arith
  get_elem-length (y ∷ ys) (suc i) x h = omega (arith, get_elem-length ys i x h)

  pub get_elem-some : (xs : List A) (i : ℕ) → i < length xs → (x : A) × (get_elem? xs i ≡ some x)
  get_elem-some [] i h = absurd (omega arith)
  get_elem-some (y ∷ ys) zero h = (y, refl)
  get_elem-some (y ∷ ys) (suc i) h = get_elem-some ys i (omega arith)

-- The load in progress is the one without a result.
pub record IsOrderly (c : Cache) : Type 0 where
  pub running : (id : ℕ) → get_elem? c.loads id ≡ some none → c.loading ≡ some id
  pub unfinished : (id : ℕ) → c.loading ≡ some id → get_elem? c.loads id ≡ some none

join_or_lead-IsOrderly :
    (loading : Option ℕ) (c : Cache)
    → c.loading ≡ loading
    → IsOrderly c
    → IsOrderly (join_or_lead loading c).1
join_or_lead-IsOrderly (some id) c h o = o
join_or_lead-IsOrderly none c h o = record {
  running = λ id found. ground (arith, get_elem-snoc c.loads none id, o.running id);
  unfinished = λ id found. ground (arith, get_elem-snoc c.loads none id);
}

unfinished_after :
    {loading : Option ℕ} (loads : List (Option Loaded)) (id j : ℕ) (loaded : Loaded)
    → get_elem? loads id ≡ some none
    → (get_elem? loads j ≡ some none → loading ≡ some j)
    → loading ≡ some id
    → get_elem? (set loads id (some loaded)) j ≡ some none
    → none ≡ some j
unfinished_after loads id j loaded unfinished running now found =
    ground (arith, get_elem-set loads id j (some loaded) none unfinished)

finish-IsOrderly :
    (ttl id now : ℕ) (loaded : Loaded) (c : Cache)
    → c.loading ≡ some id
    → IsOrderly c
    → IsOrderly (finish ttl id now loaded c)
unfolding finish
finish-IsOrderly ttl id now loaded c h o = record {
  running =
      λ j found. unfinished_after c.loads id j loaded (o.unfinished id h) (o.running j) h found;
  unfinished = λ j found. cc;
}

-- What holds of a cache and of one that a caller joined or leads holds after the test.
entered-IsOrderly :
    (valid : Bool) (c : Cache)
    → IsOrderly c
    → IsOrderly (if valid then (served c.held, c) else join_or_lead c.loading c).1
entered-IsOrderly true c o = o
entered-IsOrderly false c o = join_or_lead-IsOrderly c.loading c refl o

finish_running-IsOrderly :
    (loading : Option ℕ) (ttl now : ℕ) (loaded : Loaded) (c : Cache)
    → c.loading ≡ loading
    → IsOrderly c
    → IsOrderly (finish_running loading ttl now loaded c)
finish_running-IsOrderly none ttl now loaded c h o = o
finish_running-IsOrderly (some id) ttl now loaded c h o = finish-IsOrderly ttl id now loaded c h o

pub step-IsOrderly :
    (namespace : Namespace) (ttl : ℕ) (c : Cache) (event : Event)
    → IsOrderly c
    → IsOrderly (step namespace ttl c event)
unfolding step enter
step-IsOrderly namespace ttl c (enters (some e) force now) o = o
step-IsOrderly namespace ttl c (enters none force now) o =
    entered-IsOrderly (not force && is_valid namespace ttl now c) c o
step-IsOrderly namespace ttl c (finishes now loaded) o =
    finish_running-IsOrderly c.loading ttl now loaded c refl o

pub run-IsOrderly :
    (namespace : Namespace) (ttl : ℕ) (c : Cache) (events : List Event)
    → IsOrderly c
    → IsOrderly (run namespace ttl c events)
unfolding run
run-IsOrderly namespace ttl c [] o = o
run-IsOrderly namespace ttl c (event ∷ more) o =
    run-IsOrderly namespace ttl (step namespace ttl c event) more
      (step-IsOrderly namespace ttl c event o)

pub new-IsOrderly : IsOrderly new_cache
new-IsOrderly = record { running = λ id found. cc; unfinished = λ id found. cc }

-- A load that has its result keeps it.
abbrev pub HasResult : ℕ → Loaded → Cache → Type 0
HasResult id loaded c = get_elem? c.loads id ≡ some (some loaded)

join_or_lead-HasResult :
    (loading : Option ℕ) (id : ℕ) (loaded : Loaded) (c : Cache)
    → HasResult id loaded c
    → HasResult id loaded (join_or_lead loading c).1
join_or_lead-HasResult (some j) id loaded c h = h
join_or_lead-HasResult none id loaded c h =
    ground (arith, get_elem-snoc c.loads none id, get_elem-length c.loads id (some loaded) h)

entered-HasResult :
    (valid : Bool) (id : ℕ) (loaded : Loaded) (c : Cache)
    → HasResult id loaded c
    → HasResult id loaded (if valid then (served c.held, c) else join_or_lead c.loading c).1
entered-HasResult true id loaded c h = h
entered-HasResult false id loaded c h = join_or_lead-HasResult c.loading id loaded c h

finish_running-HasResult :
    (loading : Option ℕ) (ttl now id : ℕ) (other loaded : Loaded) (c : Cache)
    → c.loading ≡ loading
    → IsOrderly c
    → HasResult id loaded c
    → HasResult id loaded (finish_running loading ttl now other c)
unfolding finish
finish_running-HasResult none ttl now id other loaded c e o h = h
finish_running-HasResult (some j) ttl now id other loaded c e o h =
    ground (arith, get_elem-set c.loads j id (some other) none (o.unfinished j e), o.unfinished j e)

step-HasResult :
    (namespace : Namespace) (ttl id : ℕ) (loaded : Loaded) (c : Cache) (event : Event)
    → IsOrderly c
    → HasResult id loaded c
    → HasResult id loaded (step namespace ttl c event)
unfolding step enter
step-HasResult namespace ttl id loaded c (enters (some e) force now) o h = h
step-HasResult namespace ttl id loaded c (enters none force now) o h =
    entered-HasResult (not force && is_valid namespace ttl now c) id loaded c h
step-HasResult namespace ttl id loaded c (finishes now other) o h =
    finish_running-HasResult c.loading ttl now id other loaded c refl o h

pub run-HasResult :
    (namespace : Namespace) (ttl id : ℕ) (loaded : Loaded) (c : Cache) (events : List Event)
    → IsOrderly c
    → HasResult id loaded c
    → HasResult id loaded (run namespace ttl c events)
unfolding run
run-HasResult namespace ttl id loaded c [] o h = h
run-HasResult namespace ttl id loaded c (event ∷ more) o h =
    run-HasResult namespace ttl id loaded (step namespace ttl c event) more
      (step-IsOrderly namespace ttl c event o) (step-HasResult namespace ttl id loaded c event o h)

pub finished-HasResult :
    (ttl now id : ℕ) (loaded : Loaded) (c : Cache)
    → c.loading ≡ some id
    → IsOrderly c
    → HasResult id loaded (finish_running c.loading ttl now loaded c)
unfolding finish
finished-HasResult ttl now id loaded c e o =
    rw e (get_elem-set c.loads id id (some loaded) none (o.unfinished id e) ∙ rw (==_refl id) refl)
