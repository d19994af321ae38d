-- ===== src/Signing/Commit.antt =====
-- What the bytes under an L1 digest (signing/l1_action.go) commit to.
use hypersdk_go.Json.{Json}
use hypersdk_go.Prelude.{
  ℕ, ◌+◌, ◌*◌, ◌^◌, Option, none, some, List, [], ◌∷◌, ◌++◌, length, append-nil, append_assoc, ◌≡◌,
  refl, sym, ap, ◌∙◌, All, arith, ◌⊎◌, inl, inr,
}
use hypersdk_go.Signing.Encoder.{Call}
use hypersdk_go.Signing.Reader.{Item, items, item_of, print, read, levels, read-print}
use hypersdk_go.Signing.Preimage.{
  IsU64, IsAddress, put_uint64, vault_bytes, expiry_bytes, l1_data, written, Fits,
}

-- Eight bytes, most significant first, give back their number.
abbrev get_uint64 : List ℕ → ℕ
get_uint64 (a ∷ b ∷ c ∷ d ∷ e ∷ f ∷ g ∷ h ∷ rest) =
    a * 2 ^ 56 + b * 2 ^ 48 + c * 2 ^ 40 + d * 2 ^ 32 + e * 2 ^ 24 + f * 2 ^ 16 + g * 2 ^ 8 + h
get_uint64 _ = 0

get_uint64-put_uint64 : (n : ℕ) (rest : List ℕ) → IsU64 n → get_uint64 (put_uint64 n ++ rest) ≡ n
unfolding put_uint64
get_uint64-put_uint64 n rest h = omega arith

after_uint64 : List ℕ → List ℕ
after_uint64 (a ∷ b ∷ c ∷ d ∷ e ∷ f ∷ g ∷ h ∷ rest) = rest
after_uint64 _ = []

put_uint64-split :
    (m n : ℕ) (xs ys : List ℕ)
    → IsU64 m
    → IsU64 n
    → put_uint64 m ++ xs ≡ put_uint64 n ++ ys
    → (m ≡ n) × (xs ≡ ys)
unfolding put_uint64 after_uint64
put_uint64-split m n xs ys hm hn e = (
  sym (get_uint64-put_uint64 m xs hm) ∙ ap get_uint64 e ∙ get_uint64-put_uint64 n ys hn,
  ap after_uint64 e,
)

-- A condition on a value that may be missing.
abbrev pub IfThere {ℓ κ} : {A : Type ℓ} → (A → Type κ) → Option A → Type κ
IfThere P none = Unit
IfThere P (some a) = P a

tail_bytes : List ℕ → List ℕ
tail_bytes [] = []
tail_bytes (x ∷ xs) = xs

tail_bytes-eq : {x y : ℕ} {xs ys : List ℕ} → x ∷ xs ≡ y ∷ ys → xs ≡ ys
unfolding tail_bytes
tail_bytes-eq h = ap tail_bytes h

expiry_bytes-eq :
    (e f : Option ℕ) → IfThere IsU64 e → IfThere IsU64 f → expiry_bytes e ≡ expiry_bytes f → e ≡ f
expiry_bytes-eq none none he hf h = refl
expiry_bytes-eq none (some n) he hf h = cc
expiry_bytes-eq (some m) none he hf h = cc
expiry_bytes-eq (some m) (some n) he hf h =
    ap some
      (put_uint64-split m n [] [] he hf (append-nil _ ∙ tail_bytes-eq h ∙ sym (append-nil _))).0

same_length_split :
    (us vs xs ys : List ℕ) → length us ≡ length vs → us ++ xs ≡ vs ++ ys → (us ≡ vs) × (xs ≡ ys)
same_length_split [] [] xs ys l h = (refl, h)
same_length_split [] (v ∷ vs) xs ys l h = absurd (omega arith)
same_length_split (u ∷ us) [] xs ys l h = absurd (omega arith)
same_length_split (u ∷ us) (v ∷ vs) xs ys l h =
    let (p, q) = same_length_split us vs xs ys (omega arith) (cc h) in (cc, q)

first_differs : {xs ys : List ℕ} → 0 ∷ xs ≡ 1 ∷ ys → ⊥
first_differs h = cc

vault_bytes-split :
    (v w : Option (List ℕ)) (xs ys : List ℕ)
    → IfThere IsAddress v
    → IfThere IsAddress w
    → vault_bytes v ++ xs ≡ vault_bytes w ++ ys
    → (v ≡ w) × (xs ≡ ys)
vault_bytes-split none none xs ys hv hw h = (refl, tail_bytes-eq h)
vault_bytes-split none (some b) xs ys hv hw h = absurd (first_differs h)
vault_bytes-split (some a) none xs ys hv hw h = absurd (first_differs (sym h))
vault_bytes-split (some a) (some b) xs ys hv hw h =
    let (same, rest) = same_length_split a b xs ys (hv ∙ sym hw) (tail_bytes-eq h) in
    (ap some same, rest)

l1_tail-eq :
    (m n : ℕ) (v w : Option (List ℕ)) (e f : Option ℕ)
    → (IsU64 m) × (IfThere IsAddress v) × (IfThere IsU64 e)
    → (IsU64 n) × (IfThere IsAddress w) × (IfThere IsU64 f)
    → put_uint64 m ++ (vault_bytes v ++ expiry_bytes e)
      ≡ put_uint64 n ++ (vault_bytes w ++ expiry_bytes f)
    → (m ≡ n) × (v ≡ w) × (e ≡ f)
l1_tail-eq m n v w e f (hm, hv, he) (hn, hw, hf) h =
    let (same_nonce, rest) = put_uint64-split m n _ _ hm hn h in
    let (same_vault, expiry) = vault_bytes-split v w _ _ hv hw rest in
    (same_nonce, same_vault, expiry_bytes-eq e f he hf expiry)

some_inj : {A : Type 0} {a b : A} → some a ≡ some b → a ≡ b
some_inj h = cc

nothing_left : (es : List Call) → items es ≡ [] → es ≡ []
nothing_left [] h = refl
nothing_left (e ∷ es) h = cc

-- One value is no proper beginning of another.
print-split : (j k : Json) (more : List Item) → print k ≡ print j ++ more → (j ≡ k) × (more ≡ [])
print-split j k more h = (ap (λ r. r.0) pair, ap (λ r. r.1) pair)
  where
    fuel : ℕ
    fuel = levels j + levels k

    pair : ◌≡◌ {A = Json × List Item} (j, more) (k, [])
    pair = some_inj (
        sym (read-print j fuel more (omega arith))
        ∙ ap (read fuel) (sym h)
        ∙ ap (read fuel) (sym (append-nil (print k)))
        ∙ read-print k fuel [] (omega arith))

module _ (write : Call → List ℕ)
    (prefix_free : (c d : Call) (xs ys : List ℕ)
      → Fits c
      → Fits d
      → write c ++ xs ≡ write d ++ ys
      → (item_of c ≡ item_of d) × (xs ≡ ys)) where
  written-split :
      (cs ds : List Call) (xs ys : List ℕ)
      → All Fits cs
      → All Fits ds
      → written write cs ++ xs ≡ written write ds ++ ys
      → ((es : List Call) × (items ds ≡ items cs ++ items es) × (xs ≡ written write es ++ ys))
        ⊎ ((es : List Call) × (items cs ≡ items ds ++ items es) × (ys ≡ written write es ++ xs))
  written-split [] ds xs ys hc hd h = inl (ds, refl, h)
  written-split (c ∷ cs) [] xs ys hc hd h = inr (c ∷ cs, refl, sym h)
  written-split (c ∷ cs) (d ∷ ds) xs ys hc hd h =
      let (same, rest) =
        prefix_free c d _ _ hc.0 hd.0
          (sym (append_assoc (write c) _ xs) ∙ h ∙ append_assoc (write d) _ ys) in
      elim (written-split cs ds xs ys hc.1 hd.1 rest) [
        | inl (es, p, q) ↦ inl (es, cc, q)
        | inr (es, p, q) ↦ inr (es, cc, q)
      ]

  written_value-split :
      (cs ds : List Call) (j k : Json) (xs ys : List ℕ)
      → All Fits cs
      → All Fits ds
      → items cs ≡ print j
      → items ds ≡ print k
      → written write cs ++ xs ≡ written write ds ++ ys
      → (j ≡ k) × (xs ≡ ys)
  written_value-split cs ds j k xs ys hc hd hj hk h = elim (written-split cs ds xs ys hc hd h) [
    | inl (es, p, q) ↦
        let (same, nothing) =
          print-split j k (items es) (sym hk ∙ p ∙ ap (λ is. is ++ items es) hj) in
        (same, q ∙ ap (λ (es : List Call). written write es ++ ys) (nothing_left es nothing))
    | inr (es, p, q) ↦
        let (same, nothing) =
          print-split k j (items es) (sym hj ∙ p ∙ ap (λ is. is ++ items es) hk) in
        (
          sym same,
          sym (q ∙ ap (λ (es : List Call). written write es ++ xs) (nothing_left es nothing)),
        )
  ]

  -- The bytes of two L1 actions.
  pub l1_data-split :
      (cs ds : List Call) (j k : Json) (m n : ℕ) (v w : Option (List ℕ)) (e f : Option ℕ)
      → All Fits cs
      → All Fits ds
      → items cs ≡ print j
      → items ds ≡ print k
      → (IsU64 m) × (IfThere IsAddress v) × (IfThere IsU64 e)
      → (IsU64 n) × (IfThere IsAddress w) × (IfThere IsU64 f)
      → l1_data (written write cs) m v e ≡ l1_data (written write ds) n w f
      → (j ≡ k) × (m ≡ n) × (v ≡ w) × (e ≡ f)
  unfolding l1_data
  l1_data-split cs ds j k m n v w e f hc hd hj hk left right h =
      let (value, rest) = written_value-split cs ds j k _ _ hc hd hj hk h in
      let (nonce, vault, expiry) = l1_tail-eq m n v w e f left right rest in
      (value, nonce, vault, expiry)
