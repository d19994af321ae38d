-- ===== src/Transport/Limiter/Order.antt =====
-- transport/weighted_rate_limit.go: the queue is first in, first out.
use hypersdk_go.Prelude.{
  ℕ, suc, ◌*◌, ◌≡◌, ◌≤◌, none, some, List, [], ◌∷◌, ◌++◌, arith, nat_eq, nat_beq_iff, ◌==◌, ltb,
  Context, Bool-cases, inl, inr,
}
use hypersdk_go.Prelude.Int.{pos, leb_ℤ}
use hypersdk_go.Transport.Limiter.{
  Waiter, Limiter, Outcome, admitted, new_weighted_rate_limiter, refill, arrive, without, remove,
  take_turn, poll, charge, Event, arrives, polls, charges, step,
}

-- The numbers of the waiters rise along the queue, from at least `low`, and stay below `next`.
abbrev Rising : ℕ → ℕ → List Waiter → Type 0
Rising low next [] = low ≤ next
Rising low next (w ∷ ws) = (low ≤ w.id) × Rising (suc w.id) next ws

Rising-mono : (a b next : ℕ) (ws : List Waiter) → a ≤ b → Rising b next ws → Rising a next ws
Rising-mono a b next [] h r = omega arith
Rising-mono a b next (w ∷ ws) h r = (omega arith, r.1)

Rising-append :
    (low next weight : ℕ) (ws : List Waiter)
    → Rising low next ws
    → Rising low (suc next) (ws ++ record { id = next; weight = weight } ∷ [])
Rising-append low next weight [] r = (r, omega arith)
Rising-append low next weight (w ∷ ws) r = (r.0, Rising-append (suc w.id) next weight ws r.1)

Rising-without :
    (low next id : ℕ) (ws : List Waiter) → Rising low next ws → Rising low next (without id ws)
unfolding without
Rising-without low next id [] r = r
Rising-without low next id (w ∷ ws) r = elim (Bool-cases (w.id == id)) [
  | inl hit ↦ rw hit (Rising-mono low (suc w.id) next ws (omega (arith, r.0)) r.1)
  | inr miss ↦ rw miss (r.0, Rising-without (suc w.id) next id ws r.1)
]

abbrev serve : Event → Outcome → List ℕ → List ℕ
serve (polls ctx w now) admitted ns = w.id ∷ ns
serve _ _ ns = ns

-- The numbers of the waiters that a schedule admits, in the order of their admission.
unfoldable pub served : Limiter → List Event → List ℕ
served l [] = []
served l (e ∷ es) = serve e (step l e).0 (served (step l e).1 es)

-- At least `low` and strictly rising.
abbrev pub InOrder : ℕ → List ℕ → Type 0
InOrder low [] = Unit
InOrder low (n ∷ ns) = (low ≤ n) × InOrder (suc n) ns

-- The least number that may still be served after a step.
abbrev bound_after : ℕ → Event → Outcome → ℕ
bound_after low (polls ctx w now) admitted = suc w.id
bound_after low _ _ = low

abbrev Served : ℕ → Event → Outcome → Type 0
Served low (polls ctx w now) admitted = low ≤ w.id
Served low _ _ = Unit {0}

-- A step serves nobody below the bound, and leaves a queue that rises from the bound after it.
abbrev KeepsOrder : ℕ → Event → Outcome × Limiter → Type 0
KeepsOrder low e (o, m) =
    (low ≤ bound_after low e o) × Served low e o × Rising (bound_after low e o) m.next_id m.queue

refill-queue :
    (now : ℕ) (l : Limiter)
    → ((refill now l).queue ≡ l.queue) × ((refill now l).next_id ≡ l.next_id)
unfolding refill
refill-queue now l = (ground arith, ground arith)

take_turn-KeepsOrder :
    (low : ℕ) (w : Waiter) (ctx : Context) (now : ℕ) (l : Limiter) (q : List Waiter)
    → Rising low l.next_id l.queue
    → Rising low l.next_id q
    → KeepsOrder low (polls ctx w now) (take_turn w.id w.weight l q)
unfolding take_turn
take_turn-KeepsOrder low w ctx now l [] r h = (omega arith, tt, r)
take_turn-KeepsOrder low w ctx now l (head ∷ rest) r h = elim (Bool-cases (head.id == w.id)) [
  | inl first ↦
      let same : head.id ≡ w.id = (nat_beq_iff head.id w.id).0 first in
      elim (Bool-cases (leb_ℤ (pos (w.weight * l.window)) l.tokens)) [
        | inl enough ↦ rw (first, enough) (omega (arith, h.0), omega (arith, h.0), rw (← same) h.1)
        | inr short ↦ rw (first, short) (omega arith, tt, r)
      ]
  | inr behind ↦ rw behind (omega arith, tt, r)
]

step-KeepsOrder :
    (low : ℕ) (l : Limiter) (e : Event) → Rising low l.next_id l.queue → KeepsOrder low e (step l e)
unfolding step arrive poll charge remove
step-KeepsOrder low l (arrives (some x) weight) r = (omega arith, tt, r)
step-KeepsOrder low l (arrives none weight) r = elim (Bool-cases (weight == 0)) [
  | inl zero' ↦ rw zero' (omega arith, tt, r)
  | inr some' ↦ elim (Bool-cases (ltb l.budget weight)) [
    | inl large ↦ rw (some', large) (omega arith, tt, r)
    | inr fits ↦ rw (some', fits) (omega arith, tt, Rising-append low l.next_id weight l.queue r)
  ]
]
step-KeepsOrder low l (polls (some x) w now) r =
    (omega arith, tt, Rising-without low l.next_id w.id l.queue r)
step-KeepsOrder low l (polls none w now) r =
    let (q, n) = refill-queue now l in
    let r' : Rising low (refill now l).next_id (refill now l).queue = rw (q, n) r in
    take_turn-KeepsOrder low w none now (refill now l) (refill now l).queue r' r'
step-KeepsOrder low l (charges weight now) r = elim (Bool-cases (weight == 0)) [
  | inl zero' ↦ rw zero' (omega arith, tt, r)
  | inr some' ↦ let (q, n) = refill-queue now l in rw (some', q, n) (omega arith, tt, r)
]

serve-InOrder :
    (low : ℕ) (e : Event) (o : Outcome) (ns : List ℕ)
    → Served low e o
    → InOrder (bound_after low e o) ns
    → InOrder low (serve e o ns)
serve-InOrder low (polls ctx w now) admitted ns h k = (h, k)
serve-InOrder low (polls ctx w now) o ns h k = k
serve-InOrder low (arrives ctx n) o ns h k = k
serve-InOrder low (charges n m) o ns h k = k

run-InOrder :
    (low : ℕ) (l : Limiter) (es : List Event)
    → Rising low l.next_id l.queue
    → InOrder low (served l es)
unfolding served
run-InOrder low l [] r = tt
run-InOrder low l (e ∷ es) r =
    let k = step-KeepsOrder low l e r in
    serve-InOrder low e (step l e).0 _ k.1
      (run-InOrder (bound_after low e (step l e).0) (step l e).1 es k.2)

-- Waiters are numbered as they arrive, and those that a schedule admits are admitted in the order
-- of their numbers: under any schedule of arrivals, polls, cancellations and charges nobody is
-- admitted before a waiter that arrived earlier and is admitted later.
pub served-InOrder :
    (budget window start : ℕ) (es : List Event)
    → InOrder 0 (served (new_weighted_rate_limiter budget window start) es)
unfolding new_weighted_rate_limiter
served-InOrder budget window start es =
    run-InOrder 0 (new_weighted_rate_limiter budget window start) es (omega arith)
