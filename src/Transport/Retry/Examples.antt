-- ===== src/Transport/Retry/Examples.antt =====
-- transport/retry.go: runs.
use Prim.Native.Nat.{min}
use hypersdk_go.Prelude.Int.{ℤ, pos, negsuc, ◌≤ℤ◌, ◌+ℤ◌, ◌-ℤ◌, wrap_64}
use hypersdk_go.Prelude.Texts.{codes, trim_space, parse_int}
use hypersdk_go.Prelude.{◌*◌, ◌^◌, ◌≡◌, refl, Option, none, some, String, arith}
use hypersdk_go.Transport.Retry.{
  RetryPolicy, normalized, grow, clamp, delay, seconds_delay, date_delay, retry_after_delay,
}
use hypersdk_go.Transport.Retry.Bounds.{IsNormal, delay_bounds, delay-eq-min}

abbrev quiet : RetryPolicy
quiet = record {
  max_attempts = pos 3;
  base_delay = pos 100000000;
  max_delay = pos 2000000000;
  jitter = none;
}

-- A jitter whose sum with the delay leaves int64.
abbrev wild : RetryPolicy
wild = record quiet { base_delay = negsuc 4; jitter = some (λ d. pos 9223372036854775807) }

abbrev no_dates : String → Option ℤ
no_dates s = none

runs : Unit {0}
unfolding normalized grow clamp delay seconds_delay date_delay retry_after_delay ◌+ℤ◌ ◌-ℤ◌ wrap_64
    trim_space parse_int
runs = tt

delay_third : delay quiet (pos 3) ≡ pos 800000000
unfolding runs
delay_third = refl

overflowing_jitter : delay wild (pos 1) ≡ pos 0
unfolding runs
overflowing_jitter = refl

retry_after_large : retry_after_delay no_dates quiet "9223372037" (pos 0) ≡ none
unfolding runs
retry_after_large = refl

retry_after_three : retry_after_delay no_dates quiet " 1 " (pos 0) ≡ some (pos 1000000000)
unfolding runs
retry_after_three = refl

quiet-IsNormal : IsNormal quiet
quiet-IsNormal = record { attempts = omega arith; base = omega arith; ordered = omega arith }

delay_bounds_example :
    (pos 0 ≤ℤ delay wild (pos 7)) × (delay wild (pos 7) ≤ℤ (normalized wild).max_delay)
delay_bounds_example = delay_bounds wild (pos 7)

delay-eq-min_example : delay quiet (pos 5) ≡ pos (min 2000000000 (100000000 * 2 ^ 5))
delay-eq-min_example =
    delay-eq-min quiet 100000000 2000000000 5 quiet-IsNormal refl refl refl (omega arith)

thirty : parse_int (codes (trim_space "30")) ≡ some (pos 30)
unfolding runs
thirty = refl

quiet_max : (normalized quiet).max_delay ≡ pos 2000000000
unfolding runs
quiet_max = refl
