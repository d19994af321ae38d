-- ===== src/Websocket/Messages.antt =====
-- websocket/rate.go: the rolling window of outgoing messages. Times are in nanoseconds; each round
-- of `Wait` holds the mutex.
pub mod Window
pub mod Wakes
mod Examples
use hypersdk_go.Prelude.Int.{ℤ, pos, negsuc}
use hypersdk_go.Prelude.{
  ℕ, zero, suc, ◌+◌, ◌-◌, Option, none, some, List, [], ◌∷◌, ◌++◌, length, ltb, leb, if◌then◌else◌,
  Context, ContextError,
}

-- `messageRateLimiter`
pub record Limiter : Type 0 where
  pub limit : ℕ
  pub window : ℕ
  pub sent : List ℕ

abbrev pub default_max_messages : ℕ
default_max_messages = 2000

abbrev pub positive_or : ℕ → ℤ → ℕ
positive_or default (pos zero) = default
positive_or default (pos (suc n)) = suc n
positive_or default (negsuc n) = default

-- `NewMessageAdmissionLimiter`
unfoldable pub new_limiter : ℤ → ℤ → Limiter
new_limiter limit window = record {
  limit = positive_or default_max_messages limit;
  window = positive_or 60000000000 window;
  sent = [];
}

-- What a round of `Wait` comes to: a message may be sent, the caller sleeps, its context is done,
-- or `l.sent[0]` panics.
pub data Round : Type 0 where
  admitted index_out_of_range : Round
  asleep : ℕ → Round
  failed : ContextError → Round

-- The times that are still after the cutoff, from the first such time on.
unfoldable pub drop_old : ℕ → ℕ → List ℕ → List ℕ
drop_old window now [] = []
drop_old window now (s ∷ more) =
    let rest = drop_old window now more in if leb (s + window) now then rest else s ∷ more

abbrev pub sleep : ℕ → ℕ → List ℕ → Round
sleep window now [] = index_out_of_range
sleep window now (s ∷ more) = asleep (s + window - now)

-- A round of the loop of `Wait`.
unfoldable pub attempt : Context → ℕ → Limiter → Round × Limiter
attempt (some e) now l = (failed e, l)
attempt none now l =
    let sent = drop_old l.window now l.sent in
    if ltb (length sent) l.limit
    then (admitted, record { limit = l.limit; window = l.window; sent = sent ++ now ∷ [] })
    else (sleep l.window now sent, record { limit = l.limit; window = l.window; sent = sent })

-- Rounds of any callers, in the order of the mutex.
unfoldable pub run : Limiter → List (Context × ℕ) → Limiter
run l [] = l
run l ((ctx, now) ∷ more) = run (attempt ctx now l).1 more
