-- ===== src/Transport/Limiter/Tokens.antt =====
-- transport/weighted_rate_limit.go: no schedule spends more than the budget and what was refilled.
use hypersdk_go.Prelude.Int.{pos, ◌+ℤ◌, ◌-ℤ◌, ◌≤ℤ◌, leb_ℤ, min_ℤ, +ℤ_parts, -ℤ_parts}
use native.Mathlib.Nat.{add-mul, zero-add, mul_comm}
use hypersdk_go.Prelude.{
  ℕ, suc, ◌+◌, ◌-◌, ◌*◌, ◌≡◌, ◌≤◌, refl, sym, ap, subst, nat_beq_iff, ◌∙◌, ◌||◌, none, some, List,
  [], ◌∷◌, arith, nat_eq, ◌==◌, ltb, leb, Context, Bool-cases, inl, inr,
}
use hypersdk_go.Transport.Limiter.{
  Waiter, Limiter, Outcome, admitted, new_weighted_rate_limiter, refill, arrive, remove, take_turn,
  poll, charge, Event, arrives, polls, charges, step, run,
}

-- From one limiter to a later one that spent a weight.
record Spends (l : Limiter) (weight : ℕ) (m : Limiter) : Type 0 where
  budget : m.budget ≡ l.budget
  window : m.window ≡ l.window
  later : l.updated ≤ m.updated
  paid :
      pos (weight * l.window + l.updated * l.budget) +ℤ m.tokens
      ≤ℤ l.tokens +ℤ pos (m.updated * l.budget)
  capped : l.tokens ≤ℤ pos (l.budget * l.window) → m.tokens ≤ℤ pos (l.budget * l.window)

elapsed-mul : (a b n : ℕ) → a ≤ b → (b - a) * n + a * n ≡ b * n
elapsed-mul a b n h =
    let e : b ≡ (b - a) + a = omega arith in sym (ap (λ (c : ℕ). c * n) e ∙ add-mul (b - a) a n)

refill-Spends : (now : ℕ) (l : Limiter) → Spends l 0 (refill now l)
unfolding refill
refill-Spends now l = elim (Bool-cases (leb l.window 0 || leb l.budget 0 || leb now l.updated)) [
  | inl idle ↦ rw idle (record {
    budget = refl;
    window = refl;
    later = omega arith;
    paid = omega (arith, +ℤ_parts);
    capped = λ h. h;
  })
  | inr on ↦
      let late : l.updated ≤ now = ground arith in
      rw on (record {
        budget = refl;
        window = refl;
        later = late;
        paid = ground (
          arith,
          elapsed-mul l.updated now l.budget late,
          +ℤ_parts l.tokens (pos ((now - l.updated) * l.budget)),
          +ℤ_parts (pos (0 * l.window + l.updated * l.budget))
              (min_ℤ (pos (l.budget * l.window)) (l.tokens +ℤ pos ((now - l.updated) * l.budget))),
          +ℤ_parts l.tokens (pos (now * l.budget)),
        );
        capped = λ h. ground arith;
      })
]

Spends-trans : (l m n : Limiter) (a b : ℕ) → Spends l a m → Spends m b n → Spends l (a + b) n
Spends-trans l m n a b p q = record {
  budget = q.budget ∙ p.budget;
  window = q.window ∙ p.window;
  later = omega (arith, p.later, q.later);
  paid =
      let first = rw (p.budget, p.window) at q.paid in
      omega (arith, p.paid, first, add-mul a b l.window, +ℤ_parts);
  capped = λ h.
      let next : (m.tokens ≤ℤ pos (l.budget * l.window) → n.tokens ≤ℤ pos (l.budget * l.window)) =
        rw (p.budget, p.window) at q.capped in
      next (p.capped h);
}

-- Taking tokens away, with the clock where it was.
spend-Spends :
    (l : Limiter) (weight : ℕ) (q : List Waiter)
    → Spends l weight (record l { tokens = l.tokens -ℤ pos (weight * l.window); queue = q })
spend-Spends l weight q = record {
  budget = refl;
  window = refl;
  later = omega arith;
  paid = omega (arith, +ℤ_parts, -ℤ_parts);
  capped = λ h. omega (arith, h, -ℤ_parts);
}

queue-Spends :
    (l : Limiter) (q : List Waiter) (n : ℕ) → Spends l 0 (record l { queue = q; next_id = n })
queue-Spends l q n = record {
  budget = refl;
  window = refl;
  later = omega arith;
  paid = omega (arith, +ℤ_parts);
  capped = λ h. h;
}

refilled-Spends :
    (now weight : ℕ) (l m : Limiter) → Spends (refill now l) weight m → Spends l weight m
refilled-Spends now weight l m h =
    subst (λ c. Spends l c m) (zero-add weight)
      (Spends-trans l (refill now l) m 0 weight (refill-Spends now l) h)

-- The weight that a step takes from the bucket.
abbrev pub spent_by : Event → Outcome → ℕ
spent_by (polls ctx w now) admitted = w.weight
spent_by (charges weight now) outcome = weight
spent_by _ _ = 0

-- The weight that a schedule takes from the bucket.
unfoldable pub spent : Limiter → List Event → ℕ
spent l [] = 0
spent l (e ∷ es) = spent_by e (step l e).0 + spent (step l e).1 es

take_turn-Spends :
    (w : Waiter) (ctx : Context) (now : ℕ) (l : Limiter) (q : List Waiter)
    → Spends l
        (spent_by (polls ctx w now) (take_turn w.id w.weight l q).0)
        (take_turn w.id w.weight l q).1
unfolding take_turn
take_turn-Spends w ctx now l [] = queue-Spends l l.queue l.next_id
take_turn-Spends w ctx now l (h ∷ rest) = elim (Bool-cases (h.id == w.id)) [
  | inl head ↦ elim (Bool-cases (leb_ℤ (pos (w.weight * l.window)) l.tokens)) [
    | inl enough ↦ rw (head, enough) (spend-Spends l w.weight rest)
    | inr short ↦ rw (head, short) (queue-Spends l l.queue l.next_id)
  ]
  | inr behind ↦ rw behind (queue-Spends l l.queue l.next_id)
]

step-Spends : (l : Limiter) (e : Event) → Spends l (spent_by e (step l e).0) (step l e).1
unfolding step arrive poll charge remove
step-Spends l (arrives (some x) weight) = queue-Spends l l.queue l.next_id
step-Spends l (arrives none weight) = elim (Bool-cases (weight == 0)) [
  | inl zero' ↦ rw zero' (queue-Spends l l.queue l.next_id)
  | inr some' ↦ elim (Bool-cases (ltb l.budget weight)) [
    | inl large ↦ rw (some', large) (queue-Spends l l.queue l.next_id)
    | inr fits ↦ rw (some', fits) (queue-Spends l _ (suc l.next_id))
  ]
]
step-Spends l (polls (some x) w now) = queue-Spends l _ l.next_id
step-Spends l (polls none w now) =
    refilled-Spends now _ l _ (take_turn-Spends w none now (refill now l) (refill now l).queue)
step-Spends l (charges weight now) = elim (Bool-cases (weight == 0)) [
  | inl zero' ↦ rw (zero', (nat_beq_iff weight 0).0 zero') (queue-Spends l l.queue l.next_id)
  | inr some' ↦
      rw some'
        (refilled-Spends now weight l _ (spend-Spends (refill now l) weight (refill now l).queue))
]

run-Spends : (l : Limiter) (es : List Event) → Spends l (spent l es) (run l es)
unfolding run spent
run-Spends l [] = queue-Spends l l.queue l.next_id
run-Spends l (e ∷ es) =
    Spends-trans l (step l e).1 _ _ _ (step-Spends l e) (run-Spends (step l e).1 es)

pub spent-le-refilled :
    (budget window start : ℕ) (es : List Event)
    → let l = new_weighted_rate_limiter budget window start in
      let m = run l es in
      (pos (spent l es * window) +ℤ m.tokens ≤ℤ pos ((window + (m.updated - start)) * budget))
      × (m.tokens ≤ℤ pos (budget * window))
unfolding new_weighted_rate_limiter
spent-le-refilled budget window start es =
    let l = new_weighted_rate_limiter budget window start in
    let s = run-Spends l es in
    let time = elapsed-mul start (run l es).updated budget s.later in
    (
      omega (
        arith,
        s.paid,
        time,
        +ℤ_parts,
        add-mul window ((run l es).updated - start) budget,
        mul_comm budget window,
      ),
      s.capped (omega arith),
    )
