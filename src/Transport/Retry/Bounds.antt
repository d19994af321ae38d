-- ===== src/Transport/Retry/Bounds.antt =====
-- transport/retry.go: the delays, exactly and within bounds.
use Prim.Native.Nat.{min}
use hypersdk_go.Prelude.Int.{
  ℤ, pos, negsuc, ◌≤ℤ◌, ◌<ℤ◌, leb_ℤ, wrap_64-add, wrap_64-sub, two_63, nonneg_cases,
}
use hypersdk_go.Prelude.{
  ℕ, zero, suc, ◌+◌, ◌-◌, ◌*◌, ◌^◌, ◌≤◌, ◌<◌, ◌≡◌, ap, sym, ◌∙◌, Bool-cases, string_eq, inl, inr,
  leb→le, leb_false→lt, double-pow, le-mul-pow, none, arith,
}
use hypersdk_go.Transport.Retry.{RetryPolicy, normalized, grow, clamp, delay}

-- The loop doubles up to the maximum, and never wraps.
grow-eq-min :
    (k max d : ℕ) → d ≤ max → max < two_63 → grow k (pos max) (pos d) ≡ pos (min max (d * 2 ^ k))
unfolding grow
grow-eq-min zero max d h w = ap pos (omega arith)
grow-eq-min (suc k) max d h w =
    rw (wrap_64-sub max d h w) (elim (Bool-cases (leb_ℤ (pos (max - d)) (pos d))) [
      | inl far ↦ rw far (
          ap pos
            (omega (arith, double-pow d k, le-mul-pow (d + d) k, leb→le (max - d + 0) (d + 0) far)))
      | inr near ↦
          let small : d + d < max = omega (arith, leb_false→lt (max - d + 0) (d + 0) near) in
          rw near (
            rw (wrap_64-add d d (omega arith)) (
              grow-eq-min k max (d + d) (omega arith) w
              ∙ ap (λ (n : ℕ). pos (min max n)) (sym (double-pow d k))))
    ])

-- A policy is well formed when its delays are positive and in order.
pub record IsNormal (p : RetryPolicy) : Type 0 where
  pub attempts : pos 0 <ℤ p.max_attempts
  pub base : pos 0 <ℤ p.base_delay
  pub ordered : p.base_delay ≤ℤ p.max_delay

-- `normalized` always gives a well-formed policy, and leaves a well-formed one as it is.
normalized-IsNormal : (p : RetryPolicy) → IsNormal (normalized p) × (IsNormal p → normalized p ≡ p)
unfolding normalized
normalized-IsNormal p = (ground arith, λ h. ground arith)

clamp_bounds : (max : ℕ) (d : ℤ) → (pos 0 ≤ℤ clamp (pos max) d) × (clamp (pos max) d ≤ℤ pos max)
unfolding clamp
clamp_bounds max (pos n) = ground arith
clamp_bounds max (negsuc n) = ground arith

IsNormal-max : (p : RetryPolicy) → IsNormal p → (n : ℕ) × (p.max_delay ≡ pos n)
IsNormal-max p h = nonneg_cases p.max_delay (omega (arith, h.base, h.ordered))

-- The delay never falls below zero nor exceeds the maximum delay of the normalized policy, whatever
-- the jitter returns, for every attempt number.
pub delay_bounds :
    (p : RetryPolicy) (attempt : ℤ)
    → (pos 0 ≤ℤ delay p attempt) × (delay p attempt ≤ℤ (normalized p).max_delay)
unfolding delay
delay_bounds p attempt =
    let (max, e) = IsNormal-max (normalized p) (normalized-IsNormal p).0 in
    rw e (clamp_bounds max _)

-- Without jitter the delay of attempt n of a well-formed policy is min(max, base * 2^n), for every
-- base and maximum below 2^63: no doubling wraps.
pub delay-eq-min :
    (p : RetryPolicy) (base max n : ℕ)
    → IsNormal p
    → p.jitter ≡ none
    → p.base_delay ≡ pos base
    → p.max_delay ≡ pos max
    → max < two_63
    → delay p (pos n) ≡ pos (min max (base * 2 ^ n))
unfolding delay clamp
delay-eq-min p base max n v j b m w =
    rw
      (
        (normalized-IsNormal p).1 v,
        j,
        b,
        m,
        grow-eq-min n max base (grind (arith, v.ordered, b, m)) w,
      )
      (ground arith)
