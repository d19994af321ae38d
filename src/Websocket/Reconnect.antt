-- ===== src/Websocket/Reconnect.antt =====
-- websocket/reconnect.go. Delays are int64 nanoseconds; `rand.Int64N` is a parameter, `draw n`,
-- a number below `n`.
pub mod Bounds
mod Examples
use hypersdk_go.Prelude.Int.{ℤ, pos, negsuc, pos_part, ◌+ℤ◌, ◌-ℤ◌, leb_ℤ, ltb_ℤ, wrap_64}
use hypersdk_go.Prelude.{ℕ, zero, suc, ◌+◌, ◌-◌, ◌/◌, Bool, Option, none, some, ◌||◌, if◌then◌else◌}

-- `ExponentialReconnectPolicy`; a nil `Jitter` is `none`.
pub record ExponentialReconnectPolicy : Type 0 where
  pub initial_delay : ℤ
  pub max_delay : ℤ
  pub jitter : Option (ℤ → ℤ)

abbrev pub default_reconnect_delay : ℤ
default_reconnect_delay = pos 1000000000

abbrev pub default_reconnect_max_delay : ℤ
default_reconnect_max_delay = pos 30000000000

-- `equalReconnectJitter`, for a delay that is not negative.
unfoldable pub equal_jitter : (ℕ → ℕ) → ℤ → ℤ
equal_jitter draw (negsuc n) = pos 0
equal_jitter draw (pos zero) = pos 0
equal_jitter draw (pos (suc n)) = let half = suc n / 2 in pos (half + draw (suc n - half + 1))

abbrev or_default : ℤ → ℤ → ℤ
or_default a d = if leb_ℤ a (pos 0) then d else a

-- The initial and the maximum delay that both the constructor and `Delay` settle on.
unfoldable pub settled : ℤ → ℤ → ℤ × ℤ
settled initial max =
    let i = or_default initial default_reconnect_delay in
    let m = or_default max default_reconnect_max_delay in (i, if ltb_ℤ m i then i else m)

abbrev pub or_jitter : (ℕ → ℕ) → Option (ℤ → ℤ) → ℤ → ℤ
or_jitter draw none = equal_jitter draw
or_jitter draw (some j) = j

-- `NewExponentialReconnectPolicy`
unfoldable pub new_policy : (ℕ → ℕ) → ℤ → ℤ → Option (ℤ → ℤ) → ExponentialReconnectPolicy
new_policy draw initial max jitter =
    let (i, m) = settled initial max in
    record { initial_delay = i; max_delay = m; jitter = some (or_jitter draw jitter) }

-- `maxDelay/2`, which truncates toward zero.
abbrev pub half_of : ℤ → ℤ
half_of (pos n) = pos (n / 2)
half_of (negsuc n) = pos 0 -ℤ pos (suc n / 2)

-- The loop of `Delay`, over the rounds left.
unfoldable pub grow : ℕ → ℤ → ℤ → ℤ
unfolding ◌-ℤ◌
grow zero max d = d
grow (suc k) max d =
    let rest = grow k max (wrap_64 (d +ℤ d)) in
    if leb_ℤ max d || ltb_ℤ (half_of max) d then max else rest

-- The last tests of `Delay`.
unfoldable pub clamp : ℤ → ℤ → ℤ
clamp max d = if ltb_ℤ d (pos 0) then pos 0 else if ltb_ℤ max d then max else d

-- `Delay` on a policy that is not nil.
unfoldable pub policy_delay : (ℕ → ℕ) → ExponentialReconnectPolicy → ℤ → ℤ
policy_delay draw p attempt =
    let (i, m) = settled p.initial_delay p.max_delay in
    clamp m (or_jitter draw p.jitter (grow (pos_part attempt) m i))

-- `Delay`; a nil policy waits not at all.
unfoldable pub delay : (ℕ → ℕ) → Option ExponentialReconnectPolicy → ℤ → ℤ
unfolding policy_delay
delay draw none attempt = pos 0
delay draw (some p) attempt = policy_delay draw p attempt
