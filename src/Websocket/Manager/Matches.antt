-- ===== src/Websocket/Manager/Matches.antt =====
-- websocket/manager.go: the entry that an answer of the server is matched with.
use hypersdk_go.Json.{Fields}
use hypersdk_go.Prelude.{
  ℕ, ◌≡◌, refl, Bool, true, false, Option, none, some, String, string_eq, ◌==◌, List, [], ◌∷◌, ◌⊎◌,
  All, ltb, leb, arith, Bool-cases, inl, inr,
}
use hypersdk_go.Websocket.Wires.{match_score}
use hypersdk_go.Websocket.Manager.{
  Pending, consider, entry_of, entry_score, best_match, matching_pending_acknowledgement,
}
use hypersdk_go.Websocket.Manager.Errors.{
  consider_alone, joined, only_match, matching_error_acknowledgement,
}

abbrev Entry : Type 0
Entry = String × Pending

abbrev pub OfSome : (String × Pending → Type 0) → Option (String × Pending) → Type 0
OfSome P none = Unit
OfSome P (some e) = P e

consider-OfSome :
    (P : Entry → Type 0) (key : String) (request : Pending) (score : Option ℕ)
    (best : Option (ℕ × String × Pending))
    → P (key, request)
    → OfSome P (entry_of best)
    → OfSome P (entry_of (consider key request score best))
consider-OfSome P key request none best p h = h
consider-OfSome P key request (some n) none p h = p
consider-OfSome P key request (some n) (some (m, k, r)) p h = elim (Bool-cases (ltb m n)) [
  | inl lower ↦ rw lower p
  | inr kept ↦ rw kept h
]

best_match-OfSome :
    (P : Entry → Type 0) (method : String) (subscription : Fields) (pending : List Entry)
    (best : Option (ℕ × String × Pending))
    → All P pending
    → OfSome P (entry_of best)
    → OfSome P (entry_of (best_match method subscription pending best))
unfolding best_match
best_match-OfSome P method subscription [] best a h = h
best_match-OfSome P method subscription ((key, request) ∷ more) best a h =
    let score = entry_score method subscription request in
    best_match-OfSome P method subscription more (consider key request score best) a.1
      (consider-OfSome P key request score best a.0 h)

-- What every entry has, the matched one has.
pub matching_pending_acknowledgement-OfSome :
    (P : String × Pending → Type 0) (method : String) (subscription : Fields)
    (pending : List (String × Pending))
    → All P pending
    → OfSome P (matching_pending_acknowledgement method subscription pending)
unfolding matching_pending_acknowledgement
matching_pending_acknowledgement-OfSome P method subscription pending a =
    best_match-OfSome P method subscription pending none a tt

consider_alone-OfSome :
    (P : Entry → Type 0) (key : String) (request : Pending) (score : Option ℕ)
    (found : Option (Option Entry))
    → P (key, request)
    → OfSome P (joined found)
    → OfSome P (joined (consider_alone key request score found))
consider_alone-OfSome P key request none found p h = h
consider_alone-OfSome P key request (some n) none p h = tt
consider_alone-OfSome P key request (some n) (some none) p h = p
consider_alone-OfSome P key request (some n) (some (some e)) p h = tt

only_match-OfSome :
    (P : Entry → Type 0) (subscription : Fields) (pending : List Entry)
    (found : Option (Option Entry))
    → All P pending
    → OfSome P (joined found)
    → OfSome P (joined (only_match subscription pending found))
unfolding only_match
only_match-OfSome P subscription [] found a h = h
only_match-OfSome P subscription ((key, request) ∷ more) found a h =
    let score = match_score request.wire.subscription subscription in
    only_match-OfSome P subscription more (consider_alone key request score found) a.1
      (consider_alone-OfSome P key request score found a.0 h)

pub matching_error_acknowledgement-OfSome :
    (P : String × Pending → Type 0) (method : String) (subscription : Fields)
    (pending : List (String × Pending))
    → All P pending
    → OfSome P (matching_error_acknowledgement method subscription pending)
unfolding matching_error_acknowledgement
matching_error_acknowledgement-OfSome P method subscription pending a =
    elim (Bool-cases (method == "")) [
      | inl lone ↦ rw lone (only_match-OfSome P subscription pending (some none) a tt)
      | inr named ↦
          rw named (matching_pending_acknowledgement-OfSome P method subscription pending a)
    ]

-- The score of the best so far.
abbrev score_of : Option (ℕ × String × Pending) → Option ℕ
score_of none = none
score_of (some best) = some best.0

-- Whether a score is no higher than another; an entry that does not match has none.
abbrev pub no_higher : Option ℕ → Option ℕ → Bool
no_higher none b = true
no_higher (some n) none = false
no_higher (some n) (some m) = leb n m

no_higher_trans :
    (a b c : Option ℕ) → no_higher a b ≡ true → no_higher b c ≡ true → no_higher a c ≡ true
no_higher_trans none b c h k = refl
no_higher_trans (some n) none c h k = cc
no_higher_trans (some n) (some m) none h k = cc
no_higher_trans (some n) (some m) (some l) h k = ground arith

consider-raises :
    (key : String) (request : Pending) (score : Option ℕ) (best : Option (ℕ × String × Pending))
    → (no_higher score (score_of (consider key request score best)) ≡ true)
      × (no_higher (score_of best) (score_of (consider key request score best)) ≡ true)
consider-raises key request none none = (refl, refl)
consider-raises key request none (some (m, k, r)) = (refl, ground arith)
consider-raises key request (some n) none = (ground arith, refl)
consider-raises key request (some n) (some (m, k, r)) = elim (Bool-cases (ltb m n)) [
  | inl lower ↦ rw lower (ground arith, ground arith)
  | inr kept ↦ rw kept (ground arith, ground arith)
]

-- The best entry has its score.
abbrev Scored : String → Fields → Option (ℕ × String × Pending) → Type 0
Scored method subscription none = Unit
Scored method subscription (some (score, key, request)) =
    entry_score method subscription request ≡ some score

consider-Scored :
    (method : String) (subscription : Fields) (key : String) (request : Pending) (score : Option ℕ)
    (best : Option (ℕ × String × Pending))
    → entry_score method subscription request ≡ score
    → Scored method subscription best
    → Scored method subscription (consider key request score best)
consider-Scored method subscription key request none best e s = s
consider-Scored method subscription key request (some n) none e s = e
consider-Scored method subscription key request (some n) (some (m, k, r)) e s =
    elim (Bool-cases (ltb m n)) [ inl lower ↦ rw lower e | inr kept ↦ rw kept s ]

abbrev Tops : String → Fields → Option ℕ → List Entry → Type 0
Tops method subscription bound =
    All (λ e. no_higher (entry_score method subscription e.1) bound ≡ true)

best_match-Tops :
    (method : String) (subscription : Fields) (pending : List Entry)
    (best : Option (ℕ × String × Pending))
    → Scored method subscription best
    → let last = best_match method subscription pending best in
      Scored method subscription last
      × (no_higher (score_of best) (score_of last) ≡ true)
      × Tops method subscription (score_of last) pending
unfolding best_match
best_match-Tops method subscription [] none s = (s, refl, tt)
best_match-Tops method subscription [] (some (m, k, r)) s = (s, ground arith, tt)
best_match-Tops method subscription ((key, request) ∷ more) best s =
    let score = entry_score method subscription request in
    let now = consider key request score best in
    let last = score_of (best_match method subscription more now) in
    let raised = consider-raises key request score best in
    let rest =
      best_match-Tops method subscription more now
        (consider-Scored method subscription key request score best refl s) in
    (
      rest.0,
      no_higher_trans (score_of best) (score_of now) last raised.1 rest.1,
      (no_higher_trans score (score_of now) last raised.0 rest.1, rest.2),
    )

-- An entry of the map, with its key.
abbrev pub IsIn : String × Pending → List (String × Pending) → Type 0
IsIn e [] = ⊥
IsIn e (f ∷ fs) = (e ≡ f) ⊎ IsIn e fs

IsIn-All :
    (all pending : List Entry)
    → ((e : Entry) → IsIn e pending → IsIn e all)
    → All (λ e. IsIn e all) pending
IsIn-All all [] h = tt
IsIn-All all (f ∷ fs) h = (h f (inl refl), IsIn-All all fs (λ e q. h e (inr q)))

-- No entry answers, or the entry is one of the map and answers, and no other one better.
abbrev pub IsBest : String → Fields → List (String × Pending) → Option (String × Pending) → Type 0
IsBest method subscription pending none =
    All (λ e. entry_score method subscription e.1 ≡ none) pending
IsBest method subscription pending (some (key, request)) =
    IsIn (key, request) pending
    × (n : ℕ) × (entry_score method subscription request ≡ some n)
    × All (λ e. no_higher (entry_score method subscription e.1) (some n) ≡ true) pending

unscored : (score : Option ℕ) → no_higher score none ≡ true → score ≡ none
unscored none h = refl
unscored (some n) h = cc

Tops-none :
    (method : String) (subscription : Fields) (pending : List Entry)
    → Tops method subscription none pending
    → All (λ e. entry_score method subscription e.1 ≡ none) pending
Tops-none method subscription [] h = tt
Tops-none method subscription ((key, request) ∷ more) h =
    (unscored (entry_score method subscription request) h.0, Tops-none method subscription more h.1)

IsBest-entry_of :
    (method : String) (subscription : Fields) (pending : List Entry)
    (best : Option (ℕ × String × Pending))
    → Scored method subscription best
    → Tops method subscription (score_of best) pending
    → OfSome (λ e. IsIn e pending) (entry_of best)
    → IsBest method subscription pending (entry_of best)
IsBest-entry_of method subscription pending none s t q = Tops-none method subscription pending t
IsBest-entry_of method subscription pending (some (n, k, r)) s t q = (q, n, s, t)

pub matching_pending_acknowledgement-IsBest :
    (method : String) (subscription : Fields) (pending : List (String × Pending))
    → IsBest method subscription pending
        (matching_pending_acknowledgement method subscription pending)
unfolding matching_pending_acknowledgement
matching_pending_acknowledgement-IsBest method subscription pending =
    let last = best_match method subscription pending none in
    let tops = best_match-Tops method subscription pending none tt in
    let all = IsIn-All pending pending (λ e q. q) in
    IsBest-entry_of method subscription pending last tops.0 tops.2
      (best_match-OfSome (λ e. IsIn e pending) method subscription pending none all tt)
