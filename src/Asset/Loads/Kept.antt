-- ===== src/Asset/Loads/Kept.antt =====
-- asset/meta_resolver.go: how long a snapshot is served.
use hypersdk_go.Prelude.{
  arith, ℕ, zero, suc, ◌+◌, ◌≡◌, refl, ap, ◌∙◌, Bool, true, false, not, ◌&&◌, ◌||◌, ◌==◌, nat_eq,
  ltb, Option, none, some, List, [], ◌∷◌, All, if◌then◌else◌, ok, err,
}
use hypersdk_go.Asset.{ResolveError}
use hypersdk_go.Asset.Loads.{
  Snapshot, Namespace, base, optional, Cache, is_empty, is_valid, before, served, join_or_lead,
  enter, finish, Event, enters, finishes, finish_running, step, run,
}

-- What a read of the cache depends on.
abbrev Held : Type 0
Held = Bool × (Snapshot × Option ℕ)

abbrev held_by : Cache → Held
held_by c = (c.initialized, (c.held, c.expires))

-- A fetch that fails, or any call.
abbrev pub BringsNothing : Event → Type 0
BringsNothing (enters ctx force now) = Unit
BringsNothing (finishes now (err e)) = Unit
BringsNothing (finishes now (ok s)) = ⊥

join_or_lead-held_by :
    (loading : Option ℕ) (c : Cache) → held_by (join_or_lead loading c).1 ≡ held_by c
join_or_lead-held_by none c = refl
join_or_lead-held_by (some id) c = refl

entered-held_by :
    (valid : Bool) (c : Cache)
    → held_by (if valid then (served c.held, c) else join_or_lead c.loading c).1 ≡ held_by c
entered-held_by true c = refl
entered-held_by false c = join_or_lead-held_by c.loading c

failed-held_by :
    (loading : Option ℕ) (ttl now : ℕ) (e : ResolveError) (c : Cache)
    → held_by (finish_running loading ttl now (err e) c) ≡ held_by c
unfolding finish
failed-held_by none ttl now e c = refl
failed-held_by (some id) ttl now e c = refl

step-held_by :
    (namespace : Namespace) (ttl : ℕ) (c : Cache) (event : Event)
    → BringsNothing event
    → held_by (step namespace ttl c event) ≡ held_by c
unfolding step enter
step-held_by namespace ttl c (enters (some e) force now) b = refl
step-held_by namespace ttl c (enters none force now) b =
    entered-held_by (not force && is_valid namespace ttl now c) c
step-held_by namespace ttl c (finishes now (err e)) b = failed-held_by c.loading ttl now e c
step-held_by namespace ttl c (finishes now (ok s)) b = absurd b

run-held_by :
    (namespace : Namespace) (ttl : ℕ) (c : Cache) (events : List Event)
    → All BringsNothing events
    → held_by (run namespace ttl c events) ≡ held_by c
unfolding run
run-held_by namespace ttl c [] b = refl
run-held_by namespace ttl c (event ∷ more) b =
    run-held_by namespace ttl (step namespace ttl c event) more b.1
    ∙ step-held_by namespace ttl c event b.0

abbrev expiry : ℕ → ℕ → Option ℕ
expiry ttl stored = if ltb 0 ttl then some (stored + ttl) else none

finished-held_by :
    (namespace : Namespace) (ttl id stored : ℕ) (s : Snapshot) (c : Cache)
    → c.loading ≡ some id
    → held_by (step namespace ttl c (finishes stored (ok s))) ≡ (true, (s, expiry ttl stored))
unfolding step finish
finished-held_by namespace ttl id stored s c h = rw h refl

abbrev valid_view : Namespace → ℕ → ℕ → Held → Bool
valid_view base ttl now v = not (is_empty v.1.0.assets) && (ttl == 0 || before now v.1.1)
valid_view optional ttl now v = v.0 && (ttl == 0 || before now v.1.1)

is_valid-view :
    (namespace : Namespace) (ttl now : ℕ) (c : Cache)
    → is_valid namespace ttl now c ≡ valid_view namespace ttl now (held_by c)
unfolding is_valid
is_valid-view base ttl now c = refl
is_valid-view optional ttl now c = refl

ltb_zero_suc : (n : ℕ) → ltb 0 (suc n) ≡ true
ltb_zero_suc n = ground arith

valid_until :
    (namespace : Namespace) (ttl now stored : ℕ) (s : Snapshot)
    → is_empty s.assets ≡ false
    → valid_view namespace ttl now (true, (s, expiry ttl stored))
      ≡ (ttl == 0 || ltb now (stored + ttl))
valid_until base zero now stored s h = rw h refl
valid_until base (suc n) now stored s h = rw (h, ltb_zero_suc n) refl
valid_until optional zero now stored s h = refl
valid_until optional (suc n) now stored s h = rw (ltb_zero_suc n) refl

chosen :
    (valid : Bool) (s : Snapshot) (d : Cache)
    → d.held ≡ s
    → (if valid then (served d.held, d) else join_or_lead d.loading d).0
      ≡ (if valid then served s else (join_or_lead d.loading d).0)
chosen true s d h = ap served h
chosen false s d h = refl

-- Once a load stored a snapshot with an asset, and as long as every further load fails, a read on a
-- live context is served this snapshot exactly while the clock is before the time of storing plus
-- the TTL, and at any time when the TTL is zero; otherwise it joins a load or starts one.
pub kept-enter :
    (namespace : Namespace) (ttl id stored now : ℕ) (s : Snapshot) (c : Cache) (later : List Event)
    → c.loading ≡ some id
    → is_empty s.assets ≡ false
    → All BringsNothing later
    → (enter namespace ttl none false now
        (run namespace ttl (step namespace ttl c (finishes stored (ok s))) later)).0
      ≡ (if ttl == 0 || ltb now (stored + ttl)
          then served s
          else let d = run namespace ttl (step namespace ttl c (finishes stored (ok s))) later in
            (join_or_lead d.loading d).0)
unfolding enter
kept-enter namespace ttl id stored now s c later loading filled fails =
    let d = run namespace ttl (step namespace ttl c (finishes stored (ok s))) later in
    let view : held_by d ≡ (true, (s, expiry ttl stored)) =
      run-held_by namespace ttl (step namespace ttl c (finishes stored (ok s))) later fails
      ∙ finished-held_by namespace ttl id stored s c loading in
    let valid : is_valid namespace ttl now d ≡ (ttl == 0 || ltb now (stored + ttl)) =
      is_valid-view namespace ttl now d
      ∙ ap (valid_view namespace ttl now) view
      ∙ valid_until namespace ttl now stored s filled in
    chosen (is_valid namespace ttl now d) s d (ap (λ v. v.1.0) view)
    ∙ ap (λ b. if b then served s else (join_or_lead d.loading d).0) valid
