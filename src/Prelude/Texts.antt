-- ===== src/Prelude/Texts.antt =====
-- Go's `strings` functions that the program calls. A Go string is a text of code points.
use Prim.Native.Nat.{ℕ, ◌+◌, ◌-◌, ◌*◌}
use Prim.Native.Char.{Char, code}
use Prim.Native.String.{String, char_at}
use mathlib.Core.Bool.{Bool, true, false, ◌&&◌, ◌||◌}
use mathlib.Core.Option.{Option, none, some}
use hypersdk_go.Prelude.Int.{ℤ, pos, ◌-ℤ◌, two_63, two_64}
use mathlib.Core.List.{List, [], ◌∷◌}
use hypersdk_go.Prelude.Tests.{ltb, leb, nat_beq, if◌then◌else◌}

-- The code points of a text.
abbrev pub codes : String → List ℕ
codes (String.◌∷◌ first rest) = code first ∷ codes rest
codes String.[] = []

-- `unicode.ToLower` on ASCII; other characters stay.
unfoldable pub lower_char : Char → Char
lower_char c =
    if leb 65 (code c) && leb (code c) 90
    then char_at "abcdefghijklmnopqrstuvwxyz" (code c - 65)
    else c

-- `strings.ToLower`
unfoldable pub to_lower : String → String
to_lower String.[] = String.[]
to_lower (String.◌∷◌ c s) = String.◌∷◌ (lower_char c) (to_lower s)

-- `unicode.IsSpace`
unfoldable pub is_space : ℕ → Bool
is_space c =
    (leb 9 c && leb c 13)
    || nat_beq c 32
    || nat_beq c 0x85
    || nat_beq c 0xa0
    || nat_beq c 0x1680
    || (leb 0x2000 c && leb c 0x200a)
    || nat_beq c 0x2028
    || nat_beq c 0x2029
    || nat_beq c 0x202f
    || nat_beq c 0x205f
    || nat_beq c 0x3000

unfoldable pub trim_left : String → String
trim_left String.[] = String.[]
trim_left (String.◌∷◌ c s) =
    let rest = trim_left s in if is_space (code c) then rest else String.◌∷◌ c s

-- Puts a character before a text that is trimmed on the right.
unfoldable pub cons_trimmed : Char → String → String
cons_trimmed c String.[] = if is_space (code c) then String.[] else String.◌∷◌ c String.[]
cons_trimmed c (String.◌∷◌ d s) = String.◌∷◌ c (String.◌∷◌ d s)

unfoldable pub trim_right : String → String
trim_right String.[] = String.[]
trim_right (String.◌∷◌ c s) = cons_trimmed c (trim_right s)

-- `strings.TrimSpace`
unfoldable pub trim_space : String → String
unfolding trim_left trim_right cons_trimmed is_space
trim_space s = trim_right (trim_left s)

-- The decimal number of a non-empty run of digits, after the number read so far.
unfoldable pub parse_digits : ℕ → List ℕ → Option ℕ
parse_digits n [] = some n
parse_digits n (c ∷ cs) =
    let rest = parse_digits (n * 10 + (c - 48)) cs in if leb 48 c && leb c 57 then rest else none

unfoldable pub parse_number : List ℕ → Option ℕ
unfolding parse_digits
parse_number [] = none
parse_number (c ∷ cs) = parse_digits 0 (c ∷ cs)

abbrev pub as_uint64 : Option ℕ → Option ℕ
as_uint64 none = none
as_uint64 (some n) = if ltb n two_64 then some n else none

-- `strconv.ParseUint(s, 10, 64)`, `none` for its error.
unfoldable pub parse_uint : List ℕ → Option ℕ
unfolding parse_number
parse_uint cs = as_uint64 (parse_number cs)

signed : Bool → ℕ → Option ℤ
signed negative n =
    if negative
    then (if leb n two_63 then some (pos 0 -ℤ pos n) else none)
    else (if ltb n two_63 then some (pos n) else none)

parse_signed : Bool → List ℕ → Option ℤ
parse_signed negative cs = elim (parse_number cs) [ none ↦ none | some n ↦ signed negative n ]

-- `strconv.ParseInt(s, 10, 64)`, `none` for its error.
unfoldable pub parse_int : List ℕ → Option ℤ
unfolding parse_signed signed parse_number ◌-ℤ◌
parse_int [] = none
parse_int (c ∷ cs) =
    if nat_beq c b'+'
    then parse_signed false cs
    else if nat_beq c b'-'
    then parse_signed true cs
    else parse_signed false (c ∷ cs)
