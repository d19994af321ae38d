-- ===== src/Websocket/Reconnect/Examples.antt =====
-- websocket/reconnect.go: runs.
use hypersdk_go.Prelude.Int.{pos, negsuc, ◌+ℤ◌, ◌-ℤ◌, wrap_64}
use hypersdk_go.Prelude.{ℕ, ◌<◌, ◌≡◌, refl, none, some, arith}
use hypersdk_go.Websocket.Reconnect.{
  ExponentialReconnectPolicy, equal_jitter, settled, new_policy, grow, clamp, policy_delay, delay,
}

abbrev lowest : ℕ → ℕ
lowest n = 0

lowest-lt : (n : ℕ) → 0 < n → lowest n < n
lowest-lt n h = omega arith

abbrev policy : ExponentialReconnectPolicy
policy = record { initial_delay = pos 1000000000; max_delay = pos 30000000000; jitter = none }

abbrev negative : ExponentialReconnectPolicy
negative = record policy { max_delay = negsuc 0; jitter = some (λ d. negsuc 8) }

runs : Unit {0}
unfolding equal_jitter settled new_policy grow clamp policy_delay delay ◌+ℤ◌ ◌-ℤ◌ wrap_64
runs = tt

delay_fourth : delay lowest (some policy) (pos 4) ≡ pos 8000000000
unfolding runs
delay_fourth = refl

delay_nil : delay lowest none (pos 4) ≡ pos 0
unfolding runs
delay_nil = refl

new_policy_default : (new_policy lowest (pos 0) (negsuc 3) none).max_delay ≡ pos 30000000000
unfolding runs
new_policy_default = refl
