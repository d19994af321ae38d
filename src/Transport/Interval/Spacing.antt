-- ===== src/Transport/Interval/Spacing.antt =====
-- transport/middleware.go: attempts are an interval apart.
use hypersdk_go.Prelude.{
  ℕ, ◌+◌, ◌≤◌, ◌≡◌, refl, none, some, List, [], ◌∷◌, nat_eq, ◌==◌, leb, Context, arith, Bool-cases,
  inl, inr, leb→le,
}
use hypersdk_go.Transport.Interval.{
  RateLimiter, new_rate_limiter, Turn, admitted, enqueue, leave, try_turn, round, Event, enqueues,
  rounds, step,
}

abbrev turn_log : Turn → Event → List ℕ → List ℕ
turn_log admitted (rounds ctx id now) log = now ∷ log
turn_log _ event log = log

-- The times at which a schedule admits waiters, newest first, after those before.
unfoldable pub admission_log : RateLimiter → List Event → List ℕ → List ℕ
admission_log l [] log = log
admission_log l (event ∷ more) log =
    admission_log (step l event).1 more (turn_log (step l event).0 event log)

-- Each time is an interval after the one before it.
abbrev pub Apart : ℕ → List ℕ → Type 0
Apart interval [] = Unit
Apart interval (now ∷ []) = Unit
Apart interval (now ∷ before ∷ older) = (before + interval ≤ now) × Apart interval (before ∷ older)

-- The next admission is an interval after the last one.
abbrev Due : ℕ → ℕ → List ℕ → Type 0
Due next interval [] = Unit
Due next interval (last ∷ older) = last + interval ≤ next

record IsSpaced (interval : ℕ) (l : RateLimiter) (log : List ℕ) : Type 0 where
  same : l.interval ≡ interval
  due : Due l.next interval log
  apart : Apart interval log

admit-Apart :
    (interval now next : ℕ) (log : List ℕ)
    → next ≤ now
    → Due next interval log
    → Apart interval log
    → Apart interval (now ∷ log)
admit-Apart interval now next [] h d a = tt
admit-Apart interval now next (last ∷ older) h d a = (omega arith, a)

try_turn-IsSpaced :
    (interval id now : ℕ) (ctx : Context) (l : RateLimiter) (queue log : List ℕ)
    → IsSpaced interval l log
    → IsSpaced interval
        (try_turn id now l queue).1
        (turn_log (try_turn id now l queue).0 (rounds ctx id now) log)
unfolding try_turn
try_turn-IsSpaced interval id now ctx l [] log s = s
try_turn-IsSpaced interval id now ctx l (head ∷ rest) log s = elim (Bool-cases (head == id)) [
  | inl first ↦ elim (Bool-cases (leb l.next now)) [
    | inl ready ↦
        rw (first, ready)
          (record {
            same = s.same;
            due = omega (arith, s.same);
            apart = admit-Apart interval now l.next log (leb→le l.next now ready) s.due s.apart;
          })
    | inr early ↦ rw (first, early) s
  ]
  | inr other ↦ rw other s
]

step-IsSpaced :
    (interval : ℕ) (l : RateLimiter) (event : Event) (log : List ℕ)
    → IsSpaced interval l log
    → IsSpaced interval (step l event).1 (turn_log (step l event).0 event log)
unfolding step enqueue round leave
step-IsSpaced interval l (enqueues (some e)) log s = s
step-IsSpaced interval l (enqueues none) log s = record {
  same = s.same;
  due = s.due;
  apart = s.apart;
}
step-IsSpaced interval l (rounds (some e) id now) log s = record {
  same = s.same;
  due = s.due;
  apart = s.apart;
}
step-IsSpaced interval l (rounds none id now) log s =
    try_turn-IsSpaced interval id now none l l.queue log s

admission_log-Apart :
    (interval : ℕ) (l : RateLimiter) (events : List Event) (log : List ℕ)
    → IsSpaced interval l log
    → Apart interval (admission_log l events log)
unfolding admission_log
admission_log-Apart interval l [] log s = s.apart
admission_log-Apart interval l (event ∷ more) log s =
    admission_log-Apart interval (step l event).1 more (turn_log (step l event).0 event log)
      (step-IsSpaced interval l event log s)

-- A limiter with any interval, under any schedule of arrivals, rounds and cancellations and any
-- clock readings, admits each attempt at least an interval after the one before it.
pub new_rate_limiter-Apart :
    (interval : ℕ) (events : List Event)
    → Apart interval (admission_log (new_rate_limiter interval) events [])
new_rate_limiter-Apart interval events =
    admission_log-Apart interval (new_rate_limiter interval) events []
      (record { same = refl; due = tt; apart = tt })
