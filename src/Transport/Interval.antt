-- ===== src/Transport/Interval.antt =====
-- transport/middleware.go, the limiter of RateLimit. Each locked region is a step; a waiter that
-- was woken takes a `poll` step. Times are in nanoseconds after the zero time. Waiters are told
-- apart by numbers, where the source compares pointers.
pub mod Spacing
mod Examples
use hypersdk_go.Prelude.{
  ℕ, suc, ◌+◌, Bool, Option, none, some, List, [], ◌∷◌, ◌++◌, nat_eq, ◌==◌, leb, if◌then◌else◌,
  Context, ContextError,
}

-- `rateLimiter`, without its mutex and channel.
pub record RateLimiter : Type 0 where
  pub next : ℕ
  pub interval : ℕ
  pub queue : List ℕ
  pub next_id : ℕ

-- `&rateLimiter{interval: interval}`
abbrev pub new_rate_limiter : ℕ → RateLimiter
new_rate_limiter interval = record { next = 0; interval = interval; queue = []; next_id = 0 }

-- What a locked region tells its caller: to go on, to wait in the queue, or to sleep until `next`.
pub data Turn : Type 0 where
  admitted : Turn
  failed : ContextError → Turn
  queued asleep : ℕ → Turn

-- `wait` up to its loop.
unfoldable pub enqueue : Context → RateLimiter → Turn × RateLimiter
enqueue (some e) l = (failed e, l)
enqueue none l = (
  queued l.next_id,
  record {
    next = l.next;
    interval = l.interval;
    queue = l.queue ++ l.next_id ∷ [];
    next_id = suc l.next_id;
  },
)

unfoldable pub without_waiter : ℕ → List ℕ → List ℕ
without_waiter id [] = []
without_waiter id (w ∷ ws) = let rest = without_waiter id ws in if w == id then ws else w ∷ rest

-- `remove`
unfoldable pub leave : ℕ → RateLimiter → RateLimiter
leave id l = record {
  next = l.next;
  interval = l.interval;
  queue = without_waiter id l.queue;
  next_id = l.next_id;
}

-- The locked region of the loop, on the queue.
unfoldable pub try_turn : ℕ → ℕ → RateLimiter → List ℕ → Turn × RateLimiter
try_turn id now l [] = (asleep l.next, l)
try_turn id now l (head ∷ rest) =
    if head == id
    then if leb l.next now
      then (
        admitted,
        record {
          next = now + l.interval;
          interval = l.interval;
          queue = rest;
          next_id = l.next_id;
        },
      )
      else (asleep l.next, l)
    else (asleep l.next, l)

-- A round of the loop of `wait`. A caller that is cancelled while it sleeps leaves by the same
-- step.
unfoldable pub round : Context → ℕ → ℕ → RateLimiter → Turn × RateLimiter
round (some e) id now l = (failed e, leave id l)
round none id now l = try_turn id now l l.queue

pub data Event : Type 0 where
  enqueues : Context → Event
  rounds : Context → ℕ → ℕ → Event

unfoldable pub step : RateLimiter → Event → Turn × RateLimiter
step l (enqueues ctx) = enqueue ctx l
step l (rounds ctx id now) = round ctx id now l
