-- ===== src/Prelude/Powers.antt =====
-- Doubling, as the backoff loops do it.
use Prim.Native.Nat.{ℕ, suc, ◌+◌, ◌*◌, ◌^◌, ◌≤◌}
use mathlib.Core.Path.{◌≡◌}
use native.Mathlib.Nat.{two-pow-succ, one-le-pow}
use native.Mathlib.Omega.{arith}

pub double-pow : (d k : ℕ) → d * 2 ^ suc k ≡ (d + d) * 2 ^ k
double-pow d k = grind (arith, two-pow-succ k)

pub le-mul-pow : (d k : ℕ) → d ≤ d * 2 ^ k
le-mul-pow d k = grind (arith, one-le-pow k 2 (omega arith))
