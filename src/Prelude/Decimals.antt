-- ===== src/Prelude/Decimals.antt =====
-- `fmt.Sprintf("%d", n)`, and that strconv.ParseUint reads back what it prints.
use Prim.Native.Nat.{ℕ, zero, suc, ◌+◌, ◌-◌, ◌*◌, ◌/◌, ◌%◌, ◌<◌}
use Prim.Native.Char.{code}
use Prim.Native.String.{String, char_at}
use mathlib.Core.Path.{◌≡◌, refl, ◌∙◌, ap}
use mathlib.Core.Bool.{Bool, true, false, ◌&&◌}
use mathlib.Core.List.{List, ◌∷◌}
use mathlib.Core.Option.{some}
use mathlib.Core.Logic.{inl, inr}
use native.Mathlib.Omega.{arith}
use hypersdk_go.Prelude.Tests.{ltb, leb, if◌then◌else◌, Bool-cases}
use hypersdk_go.Prelude.Int.{ℤ, pos, negsuc, two_64}
use hypersdk_go.Prelude.Texts.{codes, parse_digits, parse_number, parse_uint, as_uint64}

-- The decimal digits of a number, before a text.
show_digits : ℕ → ℕ → String → String
show_digits zero n rest = rest
show_digits (suc fuel) n rest =
    let shown = show_digits fuel (n / 10) (String.◌∷◌ (char_at "0123456789" (n % 10)) rest) in
    if ltb n 10 then String.◌∷◌ (char_at "0123456789" n) rest else shown

-- `fmt.Sprintf("%d", n)`
unfoldable pub show_nat : ℕ → String
unfolding show_digits
show_nat n = show_digits (suc n) n String.[]

unfoldable pub show_int : ℤ → String
show_int (pos n) = show_nat n
show_int (negsuc n) = String.◌∷◌ (char_at "-" 0) (show_nat (suc n))

digit_code : (d : ℕ) → d < 10 → code (char_at "0123456789" d) ≡ 48 + d
digit_code zero h = refl
digit_code (suc zero) h = refl
digit_code (suc (suc zero)) h = refl
digit_code (suc (suc (suc zero))) h = refl
digit_code (suc (suc (suc (suc zero)))) h = refl
digit_code (suc (suc (suc (suc (suc zero))))) h = refl
digit_code (suc (suc (suc (suc (suc (suc zero)))))) h = refl
digit_code (suc (suc (suc (suc (suc (suc (suc zero))))))) h = refl
digit_code (suc (suc (suc (suc (suc (suc (suc (suc zero)))))))) h = refl
digit_code (suc (suc (suc (suc (suc (suc (suc (suc (suc zero))))))))) h = refl
digit_code (suc (suc (suc (suc (suc (suc (suc (suc (suc (suc d)))))))))) h = absurd (omega arith)

in_range : (d : ℕ) → d < 10 → (leb 48 (48 + d) && leb (48 + d) 57) ≡ true
in_range d h = ground arith

without_zero : (d : ℕ) → 48 + d - 48 ≡ d
without_zero d = omega arith

parse_digit :
    (n d : ℕ) (rest : List ℕ)
    → d < 10
    → parse_digits n ((48 + d) ∷ rest) ≡ parse_digits (n * 10 + d) rest
unfolding parse_digits
parse_digit n d rest h =
    rw (in_range d h) (ap (λ m. parse_digits (n * 10 + m) rest) (without_zero d))

parse-show_digits :
    (fuel n : ℕ) (rest : String)
    → n < fuel
    → parse_digits 0 (codes (show_digits fuel n rest)) ≡ parse_digits n (codes rest)
unfolding show_digits
parse-show_digits zero n rest h = absurd (omega arith)
parse-show_digits (suc fuel) n rest h = elim (Bool-cases (ltb n 10)) [
  | inl small ↦
      let below : n < 10 = ground arith in
      let from_zero : 0 * 10 + n ≡ n = omega arith in
      rw (small, digit_code n below)
        (parse_digit 0 n (codes rest) below ∙ ap (λ m. parse_digits m (codes rest)) from_zero)
  | inr large ↦
      let last : n % 10 < 10 = omega arith in
      let whole : n / 10 * 10 + n % 10 ≡ n = omega arith in
      let fewer : n / 10 < fuel = ground arith in
      rw large (
        parse-show_digits fuel (n / 10) (String.◌∷◌ (char_at "0123456789" (n % 10)) rest) fewer
        ∙ ap (λ c. parse_digits (n / 10) (c ∷ codes rest)) (digit_code (n % 10) last)
        ∙ parse_digit (n / 10) (n % 10) (codes rest) last
        ∙ ap (λ m. parse_digits m (codes rest)) whole)
]

abbrev begins : String → Bool
begins String.[] = false
begins (String.◌∷◌ c s) = true

show_digits-begins :
    (fuel n : ℕ) (rest : String) → begins rest ≡ true → begins (show_digits fuel n rest) ≡ true
unfolding show_digits
show_digits-begins zero n rest h = h
show_digits-begins (suc fuel) n rest h = elim (Bool-cases (ltb n 10)) [
  | inl small ↦ rw small refl
  | inr large ↦
      rw large
        (show_digits-begins fuel (n / 10) (String.◌∷◌ (char_at "0123456789" (n % 10)) rest) refl)
]

show_nat-begins : (n : ℕ) → begins (show_nat n) ≡ true
unfolding show_nat show_digits
show_nat-begins n = elim (Bool-cases (ltb n 10)) [
  | inl small ↦ rw small refl
  | inr large ↦
      rw large
        (show_digits-begins n (n / 10) (String.◌∷◌ (char_at "0123456789" (n % 10)) String.[]) refl)
]

parse_number-digits :
    (s : String) → begins s ≡ true → parse_number (codes s) ≡ parse_digits 0 (codes s)
unfolding parse_number
parse_number-digits String.[] h = cc
parse_number-digits (String.◌∷◌ c s) h = refl

parse_number-show_nat : (n : ℕ) → parse_number (codes (show_nat n)) ≡ some n
unfolding show_nat parse_digits
parse_number-show_nat n =
    parse_number-digits (show_nat n) (show_nat-begins n)
    ∙ parse-show_digits (suc n) n String.[] (omega arith)

-- A printed number reads back, below 2^64.
pub parse_uint-show_nat : (n : ℕ) → n < two_64 → parse_uint (codes (show_nat n)) ≡ some n
unfolding parse_uint
parse_uint-show_nat n h =
    let below : ltb n two_64 ≡ true = ground arith in
    ap as_uint64 (parse_number-show_nat n) ∙ rw below refl
