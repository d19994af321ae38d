-- ===== src/Signing/Agreement.antt =====
-- Encoder's calls that say the same as a posted value, and the pieces that payloads are made of.
use hypersdk_go.Json.{Json, count_items}
use hypersdk_go.Prelude.Int.{pos}
use hypersdk_go.Prelude.{
  ℕ, suc, Option, none, some, List, [], ◌∷◌, length, ◌≡◌, refl, ap, Bool-cases, inl, inr, leb, ◌+◌,
  zero, sym, String, append-nil, arith, ◌-◌, ◌^◌,
}
use hypersdk_go.Signing.Encoder.{
  Call, encode_pointer, encode_slice, encode_all, json_pointer, json_slice, json_all,
  encode_compact_uint, plus_optional, optional_pair, omit_empty,
}
use hypersdk_go.Signing.Reader.{
  items, items-append, item_of, a_number, print, print_items, print_fields, count_fields,
}

abbrev pub Agrees : List Call → Json → Type 0
Agrees cs j = items cs ≡ print j

module _ {ℓ} {A : Type ℓ} (encode : A → List Call) (marshal : A → Json) where
  pub pointer-Agrees :
      (o : Option A)
      → ((a : A) → Agrees (encode a) (marshal a))
      → Agrees (encode_pointer encode o) (json_pointer marshal o)
  unfolding print
  pointer-Agrees none h = refl
  pointer-Agrees (some a) h = h a

  count_items-json_all :
      (elements : List A) → count_items (json_all marshal elements) ≡ length elements
  unfolding count_items
  count_items-json_all [] = refl
  count_items-json_all (a ∷ others) = ap suc (count_items-json_all others)

  items-encode_all :
      (elements : List A)
      → ((a : A) → Agrees (encode a) (marshal a))
      → items (encode_all encode elements) ≡ print_items (json_all marshal elements)
  unfolding print
  items-encode_all [] h = refl
  items-encode_all (a ∷ others) h = rw (items-append, h a, items-encode_all others h)

  pub slice-Agrees :
      (elements : Option (List A))
      → ((a : A) → Agrees (encode a) (marshal a))
      → Agrees (encode_slice encode elements) (json_slice marshal elements)
  unfolding print
  slice-Agrees none h = refl
  slice-Agrees (some elements) h = rw (count_items-json_all, items-encode_all elements h)

-- However the encoder is called for it, an integer is its value.
pub item_of-encode_compact_uint : (n : ℕ) → item_of (encode_compact_uint n) ≡ a_number (pos n)
item_of-encode_compact_uint n = elim (Bool-cases (leb n (2 ^ 63 - 1))) [
  | inl e ↦ rw e
  | inr e ↦ rw e
]

-- Addition by clauses on the left, which computes at a literal.
abbrev add : ℕ → ℕ → ℕ
add zero m = m
add (suc n) m = suc (add n m)

add_zero : (n : ℕ) → add n 0 ≡ n
add_zero zero = refl
add_zero (suc n) = ap suc (add_zero n)

add_one : (n : ℕ) → add n 1 ≡ n + 1
add_one zero = refl
add_one (suc n) = omega (arith, add_one n)

module _ {ℓ} {A : Type ℓ} (key : String) (encode : A → List Call) (marshal : A → Json) where
  pub plus_optional-count :
      (n : ℕ) (o : Option A) → plus_optional n o ≡ add n (count_fields (omit_empty key marshal o))
  plus_optional-count n none = sym (add_zero n)
  plus_optional-count n (some a) = sym (add_one n)

  pub optional_pair-Agrees :
      (o : Option A)
      → ((a : A) → Agrees (encode a) (marshal a))
      → items (optional_pair key encode o) ≡ print_fields (omit_empty key marshal o)
  unfolding print
  optional_pair-Agrees none h = refl
  optional_pair-Agrees (some a) h = rw (append-nil, h a)
