-- ===== src/Asset/Cached/Keys.antt =====
-- asset/resolver.go: the keys of the cache. A DEX name with a colon is excluded where keys of
-- markets are told apart.
use Prim.Native.Char.{Char, code}
use Prim.Native.String.{String, ◌++◌}
use Prim.Native.String.append.{nil, cons}
use hypersdk_go.Prelude.{
  ℕ, ◌≡◌, ◌≢◌, refl, ap, Bool, true, false, ◌&&◌, none, ◌==◌, nat_eq, string_eq, arith, not,
  Bool-cases, inl, inr, ◌⊎◌,
}
use hypersdk_go.Asset.{MarketRef, perp, spot, hip3, outcome, validate_market_ref}
use hypersdk_go.Asset.Cached.{symbol_cache_key, market_cache_key}

-- No character is a colon.
abbrev pub without_colon : String → Bool
without_colon String.[] = true
without_colon (String.◌∷◌ c s) = not (code c == 58) && without_colon s

abbrev tail : String → String
tail String.[] = String.[]
tail (String.◌∷◌ c s) = s

abbrev head : Char → String → Char
head c String.[] = c
head c (String.◌∷◌ d s) = d

abbrev first_code : String → ℕ
first_code String.[] = 0
first_code (String.◌∷◌ c s) = code c

unit_left : (t : String) → String.[] ++ t ≡ t
unit_left t = nil t

push : (c : Char) (s t : String) → (String.◌∷◌ c s) ++ t ≡ String.◌∷◌ c (s ++ t)
push c s t = cons c s t

append-cancel : (p s t : String) → p ++ s ≡ p ++ t → s ≡ t
append-cancel String.[] s t h = rw (unit_left s, unit_left t) at h
append-cancel (String.◌∷◌ c p) s t h =
    append-cancel p s t (ap tail (rw (push c p s, push c p t) at h))

abbrev first_or : String → String → ℕ
first_or String.[] t = first_code t
first_or (String.◌∷◌ c s) t = code c

first_code-append : (p t : String) → first_code (p ++ t) ≡ first_or p t
first_code-append String.[] t = rw (unit_left t) refl
first_code-append (String.◌∷◌ c p) t = rw (push c p t) refl

prepend : (c d : Char) (s t : String) → c ≡ d → s ≡ t → String.◌∷◌ c s ≡ String.◌∷◌ d t
prepend c d s t h k = rw (h, k) refl

and-right : (a b : Bool) → a && b ≡ true → b ≡ true
and-right a b h = ground arith

-- Before the first colon two equal texts agree, and behind it too.
split_colon :
    (a b s t : String)
    → without_colon a ≡ true
    → without_colon b ≡ true
    → a ++ ":" ++ s ≡ b ++ ":" ++ t
    → (a ≡ b) × (s ≡ t)
split_colon String.[] String.[] s t p q h =
    (refl, append-cancel ":" s t (rw (unit_left (":" ++ s), unit_left (":" ++ t)) at h))
split_colon String.[] (String.◌∷◌ d b) s t p q h = ground (
  arith,
  first_code-append "" (":" ++ s),
  first_code-append ":" s,
  first_code-append (String.◌∷◌ d b) (":" ++ t),
  ap first_code h,
)
split_colon (String.◌∷◌ c a) String.[] s t p q h = ground (
  arith,
  first_code-append "" (":" ++ t),
  first_code-append ":" t,
  first_code-append (String.◌∷◌ c a) (":" ++ s),
  ap first_code h,
)
split_colon (String.◌∷◌ c a) (String.◌∷◌ d b) s t p q h =
    let same : String.◌∷◌ c (a ++ ":" ++ s) ≡ String.◌∷◌ d (b ++ ":" ++ t) =
      rw (push c a (":" ++ s), push d b (":" ++ t)) at h in
    let rest =
      split_colon a b s t (and-right (not (code c == 58)) (without_colon a) p)
        (and-right (not (code d == 58)) (without_colon b) q) (ap tail same) in
    (prepend c d a b (ap (head c) same) rest.0, rest.1)

pub symbol_key-injective : (s t : String) → symbol_cache_key s ≡ symbol_cache_key t → s ≡ t
unfolding symbol_cache_key
symbol_key-injective s t h = append-cancel "symbol:" s t h

pub symbol_key-market_key :
    (s : String) (ref : MarketRef) → symbol_cache_key s ≢ market_cache_key ref
unfolding symbol_cache_key market_cache_key
symbol_key-market_key s ref h = omega (
  arith,
  first_code-append "symbol:" s,
  first_code-append "market:" (ref.kind ++ ":" ++ ref.dex ++ ":" ++ ref.symbol),
  ap first_code h,
)

same_ref : (a b : MarketRef) → a.symbol ≡ b.symbol → a.kind ≡ b.kind → a.dex ≡ b.dex → a ≡ b
same_ref a b s k d i = record { symbol = s i; kind = k i; dex = d i }

named :
    (kind constant : String)
    → without_colon constant ≡ true
    → (without_colon kind ≡ true) ⊎ ((kind == constant) ≡ false)
named kind constant plain = elim (Bool-cases (kind == constant)) [
  | inl same ↦ inl (rw ((string_eq.equals_iff kind constant).0 same) plain)
  | inr other ↦ inr other
]

refused :
    (ref : MarketRef)
    → (ref.kind == perp) ≡ false
    → (ref.kind == spot) ≡ false
    → (ref.kind == outcome) ≡ false
    → (ref.kind == hip3) ≡ false
    → validate_market_ref ref ≢ none
unfolding validate_market_ref
refused ref p s o h v = ground arith

-- A valid market has a kind without a colon.
valid-without_colon :
    (ref : MarketRef) → validate_market_ref ref ≡ none → without_colon ref.kind ≡ true
valid-without_colon ref v = elim (named ref.kind perp refl) [
  | inl found ↦ found
  | inr p ↦ elim (named ref.kind spot refl) [
    | inl found ↦ found
    | inr s ↦ elim (named ref.kind outcome refl) [
      | inl found ↦ found
      | inr o ↦ elim (named ref.kind hip3 refl) [
        | inl found ↦ found
        | inr h ↦ absurd (refused ref p s o h v)
      ]
    ]
  ]
]

pub market_key-injective :
    (a b : MarketRef)
    → validate_market_ref a ≡ none
    → validate_market_ref b ≡ none
    → without_colon a.dex ≡ true
    → without_colon b.dex ≡ true
    → market_cache_key a ≡ market_cache_key b
    → a ≡ b
unfolding market_cache_key
market_key-injective a b va vb da db h =
    let kinds =
      split_colon a.kind b.kind (a.dex ++ ":" ++ a.symbol) (b.dex ++ ":" ++ b.symbol)
        (valid-without_colon a va) (valid-without_colon b vb)
        (append-cancel "market:" (a.kind ++ ":" ++ a.dex ++ ":" ++ a.symbol)
          (b.kind ++ ":" ++ b.dex ++ ":" ++ b.symbol) h) in
    let dexes = split_colon a.dex b.dex a.symbol b.symbol da db kinds.1 in
    same_ref a b dexes.1 kinds.0 dexes.0
