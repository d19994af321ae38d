-- ===== src/Prelude/Int.antt =====
-- Signed integers over the native numbers, with Go's 64-bit wrap-around.
use Prim.Native.Nat.{ℕ, suc, ◌+◌, ◌-◌, ◌%◌, ◌≤◌, ◌<◌}
use mathlib.Core.Bool.{Bool}
use native.Mathlib.Omega.{arith}
use mathlib.Core.Path.{◌≡◌, refl}
use hypersdk_go.Prelude.Tests.{ltb, leb, if◌then◌else◌}

-- `negsuc n` is -(n + 1).
pub data ℤ : Type 0 where
  pos : ℕ → ℤ
  negsuc : ℕ → ℤ

abbrev pub pos_part : ℤ → ℕ
pos_part (pos n) = n
pos_part (negsuc n) = 0

abbrev pub neg_part : ℤ → ℕ
neg_part (pos n) = 0
neg_part (negsuc n) = suc n

-- a - b, as an integer.
abbrev pub sub_ℕ : ℕ → ℕ → ℤ
sub_ℕ a b = if leb b a then pos (a - b) else negsuc (b - a - 1)

infixl 65 ◌+ℤ◌ ◌-ℤ◌
infix 50 ◌≤ℤ◌ ◌<ℤ◌
unfoldable pub ◌+ℤ◌ : ℤ → ℤ → ℤ
a +ℤ b = sub_ℕ (pos_part a + pos_part b) (neg_part a + neg_part b)

unfoldable pub ◌-ℤ◌ : ℤ → ℤ → ℤ
a -ℤ b = sub_ℕ (pos_part a + neg_part b) (neg_part a + pos_part b)

abbrev pub ◌≤ℤ◌ : ℤ → ℤ → Type 0
a ≤ℤ b = pos_part a + neg_part b ≤ pos_part b + neg_part a

abbrev pub ◌<ℤ◌ : ℤ → ℤ → Type 0
a <ℤ b = pos_part a + neg_part b < pos_part b + neg_part a

abbrev pub leb_ℤ : ℤ → ℤ → Bool
leb_ℤ a b = leb (pos_part a + neg_part b) (pos_part b + neg_part a)

abbrev pub ltb_ℤ : ℤ → ℤ → Bool
ltb_ℤ a b = ltb (pos_part a + neg_part b) (pos_part b + neg_part a)

abbrev pub two_63 : ℕ
two_63 = 9223372036854775808

abbrev pub two_64 : ℕ
two_64 = 18446744073709551616

-- The bit pattern of an int64, as a uint64.
abbrev pub to_u64 : ℤ → ℕ
to_u64 (pos n) = n % two_64
to_u64 (negsuc n) = two_64 - 1 - n % two_64

-- The int64 of a bit pattern.
abbrev pub of_u64 : ℕ → ℤ
of_u64 n = if ltb n two_63 then pos n else negsuc (two_64 - 1 - n)

-- Wrap-around of an exact result to int64.
unfoldable pub wrap_64 : ℤ → ℤ
wrap_64 a = of_u64 (to_u64 a)

-- The integers that int64 holds.
abbrev pub Int64 : ℤ → Type 0
Int64 (pos n) = n < two_63
Int64 (negsuc n) = n < two_63

pub wrap_64_id : (a : ℤ) → Int64 a → wrap_64 a ≡ a
unfolding wrap_64
wrap_64_id (pos n) h = ground arith
wrap_64_id (negsuc n) h = ground arith

-- Sums and differences of non-negative durations do not wrap below 2^63.
pub wrap_64-add : (a b : ℕ) → a + b < two_63 → wrap_64 (pos a +ℤ pos b) ≡ pos (a + b)
unfolding wrap_64 ◌+ℤ◌
wrap_64-add a b h = ground arith

pub wrap_64-sub : (a b : ℕ) → b ≤ a → a < two_63 → wrap_64 (pos a -ℤ pos b) ≡ pos (a - b)
unfolding wrap_64 ◌-ℤ◌
wrap_64-sub a b h k = ground arith

pub nonneg_cases : (a : ℤ) → pos 0 ≤ℤ a → (n : ℕ) × (a ≡ pos n)
nonneg_cases (pos n) h = (n, refl)
nonneg_cases (negsuc n) h = absurd (omega arith)

-- What a sum and a difference are, in the parts that `omega` reads.
pub +ℤ_parts :
    (x y : ℤ)
    → neg_part (x +ℤ y) + pos_part x + pos_part y ≡ pos_part (x +ℤ y) + neg_part x + neg_part y
unfolding ◌+ℤ◌
+ℤ_parts x y = ground arith

pub -ℤ_parts :
    (x y : ℤ)
    → neg_part (x -ℤ y) + pos_part x + neg_part y ≡ pos_part (x -ℤ y) + neg_part x + pos_part y
unfolding ◌-ℤ◌
-ℤ_parts x y = ground arith

abbrev pub min_ℤ : ℤ → ℤ → ℤ
min_ℤ x y = if leb_ℤ x y then x else y
