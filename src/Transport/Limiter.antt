-- ===== src/Transport/Limiter.antt =====
-- transport/weighted_rate_limit.go, the limiter. Each locked region is a step, and a schedule of
-- steps is a run: a waiter that was woken, by `changed` or by its timer, takes a `poll` step.
-- Time is in nanoseconds. Tokens are exact: they are counted in units of 1/window, where the source
-- rounds a float64, which after the sleep of `delayLocked` can stay just below the weight, so that
-- the waiter sleeps again. Waiters are told apart by numbers, where the source compares pointers.
mod Tokens
mod Order
mod Examples
use hypersdk_go.Prelude.Int.{ℤ, pos, neg_part, pos_part, ◌+ℤ◌, ◌-ℤ◌, leb_ℤ, min_ℤ}
use hypersdk_go.Prelude.{
  ℕ, suc, ◌+◌, ◌-◌, ◌*◌, ◌/◌, Bool, true, false, ◌&&◌, ◌||◌, Option, none, some, List, [], ◌∷◌,
  ◌++◌, nat_eq, ◌==◌, ltb, leb, if◌then◌else◌, Result, ok, err, Context, ContextError,
}

-- `weightedWaiter`
pub record Waiter : Type 0 where
  pub id : ℕ
  pub weight : ℕ

-- `weightedRateLimiter`, without its mutex and channel.
pub record Limiter : Type 0 where
  pub budget : ℕ
  pub window : ℕ
  pub tokens : ℤ
  pub updated : ℕ
  pub queue : List Waiter
  pub next_id : ℕ

pub data LimitError : Type 0 where
  invalid_refill_window weight_exceeds_capacity : LimitError
  context_done : ContextError → LimitError

-- `newWeightedRateLimiter`, at the time of the call.
unfoldable pub new_weighted_rate_limiter : ℕ → ℕ → ℕ → Limiter
new_weighted_rate_limiter budget window now = record {
  budget = budget;
  window = window;
  tokens = pos (budget * window);
  updated = now;
  queue = [];
  next_id = 0;
}

-- `NewValidatedWeightLimiter`
unfoldable pub new_validated : ℕ → ℤ → ℕ → Result LimitError Limiter
new_validated capacity window now =
    if leb_ℤ window (pos 0)
    then err invalid_refill_window
    else ok (new_weighted_rate_limiter capacity (pos_part window) now)

-- `refillLocked`
unfoldable pub refill : ℕ → Limiter → Limiter
refill now l = if leb l.window 0 || leb l.budget 0 || leb now l.updated then l else record l {
  tokens = min_ℤ (pos (l.budget * l.window)) (l.tokens +ℤ pos ((now - l.updated) * l.budget));
  updated = now;
}

abbrev divide_up : ℕ → ℕ → ℕ
divide_up a b = (a + b - 1) / b

-- `delayLocked`
unfoldable pub delay : ℕ → Limiter → ℕ
delay weight l =
    let missing = pos (weight * l.window) -ℤ l.tokens in
    if leb l.budget 0 || leb l.window 0
    then 3600000000000
    else if leb_ℤ missing (pos 0)
    then 1000000
    else let d = divide_up (pos_part missing) l.budget in if leb d 0 then 1 else d

-- What a locked region of `Wait` tells its caller.
pub data Outcome : Type 0 where
  admitted charged : Outcome
  failed : LimitError → Outcome
  queued : ℕ → Outcome
  asleep : Option ℕ → Outcome

-- `Wait` up to its loop.
unfoldable pub arrive : Context → ℕ → Limiter → Outcome × Limiter
arrive (some e) weight l = (failed (context_done e), l)
arrive none weight l =
    if weight == 0
    then (admitted, l)
    else if ltb l.budget weight
    then (failed weight_exceeds_capacity, l)
    else (
      queued l.next_id,
      record l {
        queue = l.queue ++ record { id = l.next_id; weight = weight } ∷ [];
        next_id = suc l.next_id;
      },
    )

unfoldable pub without : ℕ → List Waiter → List Waiter
without id [] = []
without id (w ∷ ws) = if w.id == id then ws else w ∷ without id ws

-- `remove`
unfoldable pub remove : ℕ → Limiter → Limiter
remove id l = record l { queue = without id l.queue }

-- The locked region of the loop, on the queue of a limiter that was refilled.
unfoldable pub take_turn : ℕ → ℕ → Limiter → List Waiter → Outcome × Limiter
take_turn id weight l [] = (asleep none, l)
take_turn id weight l (head ∷ rest) =
    if head.id == id
    then if leb_ℤ (pos (weight * l.window)) l.tokens
      then (admitted, record l { tokens = l.tokens -ℤ pos (weight * l.window); queue = rest })
      else (asleep (some (delay weight l)), l)
    else (asleep none, l)

-- One round of the loop of `Wait`, for a waiter with this number and weight.
unfoldable pub poll : Context → ℕ → ℕ → ℕ → Limiter → Outcome × Limiter
unfolding take_turn
poll (some e) id weight now l = (failed (context_done e), remove id l)
poll none id weight now l = let m = refill now l in take_turn id weight m m.queue

-- `Charge`
unfoldable pub charge : ℕ → ℕ → Limiter → Limiter
charge weight now l =
    if weight == 0
    then l
    else let m = refill now l in record m { tokens = m.tokens -ℤ pos (weight * m.window) }

-- A step of some goroutine.
pub data Event : Type 0 where
  arrives : Context → ℕ → Event
  polls : Context → Waiter → ℕ → Event
  charges : ℕ → ℕ → Event

-- A `Wait` that is cancelled while it sleeps removes its waiter by `remove`, as a poll with a done
-- context does.
unfoldable pub step : Limiter → Event → Outcome × Limiter
step l (arrives ctx weight) = arrive ctx weight l
step l (polls ctx w now) = poll ctx w.id w.weight now l
step l (charges weight now) = (charged, charge weight now l)

unfoldable pub run : Limiter → List Event → Limiter
run l [] = l
run l (e ∷ es) = run (step l e).1 es
