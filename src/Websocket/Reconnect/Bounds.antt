-- ===== src/Websocket/Reconnect/Bounds.antt =====
-- websocket/reconnect.go: the delays, exactly and within bounds.
use Prim.Native.Nat.{min}
use hypersdk_go.Prelude.Int.{
  ℤ, pos, negsuc, pos_part, ◌≤ℤ◌, ◌<ℤ◌, leb_ℤ, ltb_ℤ, wrap_64-add, two_63,
}
use hypersdk_go.Prelude.{
  ℕ, zero, suc, ◌+◌, ◌-◌, ◌*◌, ◌/◌, ◌^◌, ◌≤◌, ◌<◌, ◌≡◌, refl, ap, sym, ◌∙◌, ◌||◌, Bool-cases, inl,
  inr, none, some, arith, double-pow, le-mul-pow,
}
use hypersdk_go.Websocket.Reconnect.{
  ExponentialReconnectPolicy, equal_jitter, settled, half_of, or_jitter, new_policy, grow, clamp,
  delay,
}

-- The loop doubles up to the maximum, and never wraps.
grow-eq-min :
    (k max d : ℕ) → d ≤ max → max < two_63 → grow k (pos max) (pos d) ≡ pos (min max (d * 2 ^ k))
unfolding grow
grow-eq-min zero max d h w = ap pos (omega arith)
grow-eq-min (suc k) max d h w =
    elim (Bool-cases (leb_ℤ (pos max) (pos d) || ltb_ℤ (half_of (pos max)) (pos d))) [
      | inl far ↦
          let large : max ≤ d + d = ground arith in
          rw far (ap pos (omega (arith, double-pow d k, le-mul-pow (d + d) k)))
      | inr near ↦
          let small : d + d ≤ max = ground arith in
          rw near (
            rw (wrap_64-add d d (omega arith)) (
              grow-eq-min k max (d + d) small w
              ∙ ap (λ (n : ℕ). pos (min max n)) (sym (double-pow d k))))
    ]

clamp_bounds : (max : ℕ) (d : ℤ) → (pos 0 ≤ℤ clamp (pos max) d) × (clamp (pos max) d ≤ℤ pos max)
unfolding clamp
clamp_bounds max (pos n) = ground arith
clamp_bounds max (negsuc n) = ground arith

-- Equal jitter stays between half of the delay and the delay.
equal_jitter_bounds :
    (draw : ℕ → ℕ) (d : ℕ)
    → ((n : ℕ) → 0 < n → draw n < n)
    → (pos (d / 2) ≤ℤ equal_jitter draw (pos d)) × (equal_jitter draw (pos d) ≤ℤ pos d)
unfolding equal_jitter
equal_jitter_bounds draw zero h = ground arith
equal_jitter_bounds draw (suc n) h = ground (arith, h (suc n - suc n / 2 + 1))

settled_id :
    (initial max : ℕ)
    → 0 < initial
    → initial ≤ max
    → settled (pos initial) (pos max) ≡ (pos initial, pos max)
unfolding settled
settled_id initial max h k = ground arith

clamp_id : (max : ℕ) (d : ℤ) → pos 0 ≤ℤ d → d ≤ℤ pos max → clamp (pos max) d ≡ d
unfolding clamp
clamp_id max d h k = ground arith

-- With the default jitter, attempt n of a policy whose delays are positive and in order, below
-- 2^63, waits between half of min(max, initial * 2^n) and all of it.
equal_jitter-delay :
    (draw : ℕ → ℕ) (p : ExponentialReconnectPolicy) (initial max n : ℕ)
    → ((k : ℕ) → 0 < k → draw k < k)
    → or_jitter draw p.jitter ≡ equal_jitter draw
    → p.initial_delay ≡ pos initial
    → p.max_delay ≡ pos max
    → 0 < initial
    → initial ≤ max
    → max < two_63
    → (pos (min max (initial * 2 ^ n) / 2) ≤ℤ delay draw (some p) (pos n))
      × (delay draw (some p) (pos n) ≤ℤ pos (min max (initial * 2 ^ n)))
unfolding delay
equal_jitter-delay draw p initial max n u j i m pi h w =
    let cap = min max (initial * 2 ^ n) in
    let (low, high) = equal_jitter_bounds draw cap u in
    let same : delay draw (some p) (pos n) ≡ equal_jitter draw (pos cap) =
      rw (j, i, m, settled_id initial max pi h, grow-eq-min n max initial h w)
        (clamp_id max _ (omega arith) (omega arith)) in
    rw same (low, high)

-- The delays that the constructor settles on, as numbers.
abbrev pub settled_initial : ℤ → ℤ → ℕ
settled_initial initial max = pos_part (settled initial max).0

abbrev pub settled_max : ℤ → ℤ → ℕ
settled_max initial max = pos_part (settled initial max).1

settled_bounds :
    (initial max : ℤ)
    → initial <ℤ pos two_63
    → max <ℤ pos two_63
    → ((settled initial max).0 ≡ pos (settled_initial initial max))
      × ((settled initial max).1 ≡ pos (settled_max initial max))
      × (0 < settled_initial initial max)
      × (settled_initial initial max ≤ settled_max initial max)
      × (settled_max initial max < two_63)
unfolding settled
settled_bounds (pos i) (pos m) h k =
    (ground arith, ground arith, ground arith, ground arith, ground arith)
settled_bounds (pos i) (negsuc m) h k =
    (ground arith, ground arith, ground arith, ground arith, ground arith)
settled_bounds (negsuc i) (pos m) h k =
    (ground arith, ground arith, ground arith, ground arith, ground arith)
settled_bounds (negsuc i) (negsuc m) h k =
    (ground arith, ground arith, ground arith, ground arith, ground arith)

-- The same for a policy of the constructor without a jitter of its own, for all 64-bit delays.
pub new_policy-delay :
    (draw : ℕ → ℕ) (initial max : ℤ) (n : ℕ)
    → ((k : ℕ) → 0 < k → draw k < k)
    → initial <ℤ pos two_63
    → max <ℤ pos two_63
    → let p = new_policy draw initial max none in
      let cap = min (settled_max initial max) (settled_initial initial max * 2 ^ n) in
      (pos (cap / 2) ≤ℤ delay draw (some p) (pos n)) × (delay draw (some p) (pos n) ≤ℤ pos cap)
unfolding new_policy
new_policy-delay draw initial max n u h k =
    let (first, last, positive, ordered, small) = settled_bounds initial max h k in
    equal_jitter-delay draw (new_policy draw initial max none) (settled_initial initial max)
      (settled_max initial max) n u refl first last positive ordered small
