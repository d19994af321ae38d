-- ===== src/Transport/Limiter/Examples.antt =====
-- transport/weighted_rate_limit.go: runs of the limiter.
use hypersdk_go.Prelude.Int.{pos, negsuc, ◌+ℤ◌, ◌-ℤ◌, ◌≤ℤ◌}
use hypersdk_go.Prelude.{ℕ, ◌+◌, ◌-◌, ◌*◌, ◌≡◌, refl, none, some, List, [], ◌∷◌, err, canceled}
use hypersdk_go.Transport.Limiter.{
  Waiter, Limiter, admitted, asleep, failed, weight_exceeds_capacity, invalid_refill_window,
  new_weighted_rate_limiter, new_validated, refill, delay, arrive, without, remove, take_turn, poll,
  charge, Event, arrives, polls, charges, step, run,
}
use hypersdk_go.Transport.Limiter.Tokens.{spent, spent-le-refilled}
use hypersdk_go.Transport.Limiter.Order.{served, InOrder, served-InOrder}

runs : Unit {0}
unfolding new_weighted_rate_limiter new_validated refill delay arrive without remove take_turn poll
    charge step run spent served ◌+ℤ◌ ◌-ℤ◌
runs = tt

-- Ten tokens for each 100 ns.
abbrev fresh : Limiter
fresh = new_weighted_rate_limiter 10 100 0

abbrev waiter : ℕ → ℕ → Waiter
waiter id weight = record { id = id; weight = weight }

-- The second waiter polls too early, the first is admitted, a surcharge leaves a debt, and the
-- third is cancelled.
abbrev schedule : List Event
schedule =
    arrives none 8
    ∷ arrives none 4
    ∷ arrives none 1
    ∷ polls none (waiter 1 4) 0
    ∷ polls none (waiter 0 8) 0
    ∷ charges 5 0
    ∷ polls (some canceled) (waiter 2 1) 10
    ∷ polls none (waiter 1 4) 80
    ∷ []

schedule_order : served fresh schedule ≡ 0 ∷ 1 ∷ []
unfolding runs
schedule_order = refl

schedule_spent : (spent fresh schedule ≡ 17) × ((run fresh schedule).tokens ≡ pos 100)
unfolding runs
schedule_spent = (refl, refl)

too_heavy : (step fresh (arrives none 11)).0 ≡ failed weight_exceeds_capacity
unfolding runs
too_heavy = refl

bad_window : new_validated 10 (negsuc 0) 0 ≡ err invalid_refill_window
unfolding runs
bad_window = refl

spent-le-refilled_example :
    (pos (spent fresh schedule * 100) +ℤ (run fresh schedule).tokens
      ≤ℤ pos ((100 + ((run fresh schedule).updated - 0)) * 10))
    × ((run fresh schedule).tokens ≤ℤ pos (10 * 100))
spent-le-refilled_example = spent-le-refilled 10 100 0 schedule

served-InOrder_example : InOrder 0 (served fresh schedule)
served-InOrder_example = served-InOrder 10 100 0 schedule

-- A waiter is told to sleep until the exact bucket has its tokens.
abbrev short : Limiter
short = run fresh (arrives none 10 ∷ polls none (waiter 0 10) 0 ∷ arrives none 4 ∷ [])

short_sleeps :
    (poll none 1 4 5 short ≡ (asleep (some 35), refill 5 short))
    × ((poll none 1 4 40 (refill 5 short)).0 ≡ admitted)
unfolding runs
short_sleeps = (refl, refl)
