-- ===== src/Transport/Interval/Examples.antt =====
-- transport/middleware.go: runs of the limiter of RateLimit.
use hypersdk_go.Prelude.{◌≡◌, refl, none, some, List, [], ◌∷◌, canceled, nat_eq}
use hypersdk_go.Transport.Interval.{
  new_rate_limiter, asleep, enqueue, without_waiter, leave, try_turn, round, Event, enqueues,
  rounds, step,
}
use hypersdk_go.Transport.Interval.Spacing.{admission_log, Apart, new_rate_limiter-Apart}

runs : Unit {0}
unfolding enqueue without_waiter leave try_turn round step admission_log
runs = tt

-- The second caller is not first, the first is admitted, the second gives up, and the third comes
-- early and again.
abbrev events : List Event
events =
    enqueues none
    ∷ enqueues none
    ∷ enqueues none
    ∷ rounds none 1 5
    ∷ rounds none 0 10
    ∷ rounds (some canceled) 1 20
    ∷ rounds none 2 50
    ∷ rounds none 2 110
    ∷ []

two_admitted : admission_log (new_rate_limiter 100) events [] ≡ 110 ∷ 10 ∷ []
unfolding runs
two_admitted = refl

early :
    (round none 7 50 (record { next = 110; interval = 100; queue = 7 ∷ []; next_id = 8 })).0
    ≡ asleep 110
unfolding runs
early = refl

new_rate_limiter-Apart_example : Apart 100 (admission_log (new_rate_limiter 100) events [])
new_rate_limiter-Apart_example = new_rate_limiter-Apart 100 events
