-- ===== src/Transport/Retry.antt =====
-- transport/retry.go. A `time.Duration` is an int64 of nanoseconds; jitter is a function of the
-- policy, and an HTTP date is read by a parameter.
mod Bounds
mod Examples
use hypersdk_go.Prelude.Int.{ℤ, pos, negsuc, pos_part, ◌+ℤ◌, ◌-ℤ◌, leb_ℤ, ltb_ℤ, wrap_64, two_63}
use hypersdk_go.Prelude.Texts.{codes, trim_space, parse_int}
use hypersdk_go.Prelude.{
  ℕ, zero, suc, ◌-◌, ◌*◌, Bool, Option, none, some, String, ◌||◌, ◌==◌, string_eq, if◌then◌else◌,
}

-- `RetryPolicy`; a nil `Jitter` is `none`.
pub record RetryPolicy : Type 0 where
  pub max_attempts : ℤ
  pub base_delay : ℤ
  pub max_delay : ℤ
  pub jitter : Option (ℤ → ℤ)

abbrev pub second : ℕ
second = 1000000000

-- `DefaultRetryPolicy`, over its random jitter.
abbrev pub default_retry_policy : (ℤ → ℤ) → RetryPolicy
default_retry_policy random = record {
  max_attempts = pos 3;
  base_delay = pos 100000000;
  max_delay = pos 2000000000;
  jitter = some random;
}

abbrev or_default : ℤ → ℤ → ℤ
or_default a d = if leb_ℤ a (pos 0) then d else a

-- `normalized`; the jitter stays, nil or not.
unfoldable pub normalized : RetryPolicy → RetryPolicy
normalized p =
    let max = or_default p.max_delay (pos 2000000000) in
    let base = or_default p.base_delay (pos 100000000) in
    record p {
      max_attempts = or_default p.max_attempts (pos 3);
      base_delay = if ltb_ℤ max base then max else base;
      max_delay = max;
    }

-- The loop of `Delay`, over the rounds left.
unfoldable pub grow : ℕ → ℤ → ℤ → ℤ
grow zero max d = d
grow (suc k) max d =
    let rest = grow k max (wrap_64 (d +ℤ d)) in if leb_ℤ (wrap_64 (max -ℤ d)) d then max else rest

-- The last tests of `Delay`.
unfoldable pub clamp : ℤ → ℤ → ℤ
clamp max d = if ltb_ℤ d (pos 0) then pos 0 else if ltb_ℤ max d then max else d

abbrev pub with_jitter : Option (ℤ → ℤ) → ℤ → ℤ
with_jitter none d = d
with_jitter (some jitter) d = wrap_64 (d +ℤ jitter d)

-- `Delay`
unfoldable pub delay : RetryPolicy → ℤ → ℤ
delay p attempt =
    let q = normalized p in
    clamp q.max_delay (with_jitter q.jitter (grow (pos_part attempt) q.max_delay q.base_delay))

abbrev pub capped : ℤ → ℤ → ℤ
capped max d = if ltb_ℤ max d then max else d

-- `time.Time.Sub`, which saturates at the ends of int64.
abbrev pub time_sub : ℤ → ℤ → ℤ
time_sub a b =
    let d = a -ℤ b in
    if ltb_ℤ (pos (two_63 - 1)) d
    then pos (two_63 - 1)
    else if ltb_ℤ d (negsuc (two_63 - 1))
    then negsuc (two_63 - 1)
    else d

-- The delay-seconds form.
unfoldable pub seconds_delay : ℤ → ℤ → Option ℤ
seconds_delay max seconds =
    if ltb_ℤ seconds (pos 0) || ltb_ℤ (pos 9223372036) seconds
    then none
    else some (capped max (pos (pos_part seconds * second)))

-- The HTTP-date form.
unfoldable pub date_delay : ℤ → ℤ → Option ℤ → Option ℤ
unfolding ◌-ℤ◌
date_delay max now none = none
date_delay max now (some retry_at) =
    let d = time_sub retry_at now in if leb_ℤ d (pos 0) then none else some (capped max d)

-- `RetryAfterDelay`, on the header's value; `http.ParseTime` is `parse_time`.
unfoldable pub retry_after_delay : (String → Option ℤ) → RetryPolicy → String → ℤ → Option ℤ
retry_after_delay parse_time p header now =
    let value = trim_space header in
    let max = (normalized p).max_delay in
    if value == "" then none else elim (parse_int (codes value)) [
      | some seconds ↦ seconds_delay max seconds
      | none ↦ date_delay max now (parse_time value)
    ]
