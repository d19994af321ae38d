-- ===== src/Signing/Deploy/Sorted.antt =====
-- What the loops over tuple lists in signing/deploy_actions.go accept.
use hypersdk_go.Prelude.Texts.{codes, trim_space}
use hypersdk_go.Prelude.{
  ℕ, Bool, true, false, not, ◌&&◌, String, string_eq, ◌==◌, List, [], ◌∷◌, ok, err, ◌>>=◌, ◌≡◌,
  refl, ◌↔◌, All, Bool-cases, inl, inr, arith, sym, ap,
}
use hypersdk_go.Signing.Deploy.Checks.{
  Check, require, codes_lt, text_lt, valid_coin, Keyed, sorted_loop,
}

codes_lt_trans :
    (ws bs cs : List ℕ) → codes_lt ws bs ≡ true → codes_lt bs cs ≡ true → codes_lt ws cs ≡ true
unfolding codes_lt
codes_lt_trans [] [] [] p q = p
codes_lt_trans [] (y ∷ ys) [] p q = q
codes_lt_trans [] bs (z ∷ cs) p q = refl
codes_lt_trans (x ∷ xs) [] cs p q = cc
codes_lt_trans (x ∷ xs) (y ∷ ys) [] p q = cc
codes_lt_trans (x ∷ xs) (y ∷ ys) (z ∷ zs) p q = ground (arith, codes_lt_trans xs ys zs)

-- Every key is there, passes its check, and is below every later key.
module _ {ℓ} {Value : Type ℓ} where
  abbrev pub HasKey : Keyed Value → Type 0
  HasKey v = (trim_space v.key == "") ≡ false

  abbrev pub Below : String → Keyed Value → Type 0
  Below key v = text_lt key v.key ≡ true

  abbrev pub Ascending : List (Keyed Value) → Type ℓ
  Ascending [] = Unit
  Ascending (v ∷ vs) = All (Below v.key) vs × Ascending vs

blank : (trim_space "" == "") ≡ true
unfolding trim_space
blank = refl

-- A blank text is refused, so the last key of the loop is never taken for the start.
key_not_empty : (s : String) → (trim_space s == "") ≡ false → (s == "") ≡ false
key_not_empty s h = elim (Bool-cases (s == "")) [
  | inl e ↦ cc (ap (λ (t : String). trim_space t == "") ((string_eq.equals_iff s "").0 e), blank)
  | inr e ↦ e
]

require_passed : (b : Bool) (problem : String) → require b problem ≡ ok tt → b ≡ true
require_passed true problem h = refl
require_passed false problem h = cc

not_passed : (b : Bool) → not b ≡ true → b ≡ false
not_passed true h = sym h
not_passed false h = refl

guard_passed :
    (start below : Bool) → not (not start && not below) ≡ true → start ≡ false → below ≡ true
guard_passed true below h e = cc
guard_passed false true h e = refl
guard_passed false false h e = h

valid_coin-eq-ok : (coin : String) → valid_coin coin ≡ ok tt → (trim_space coin == "") ≡ false
unfolding valid_coin
valid_coin-eq-ok coin h = not_passed _ (require_passed _ _ h)

ok-valid_coin : (coin : String) → (trim_space coin == "") ≡ false → valid_coin coin ≡ ok tt
unfolding valid_coin
ok-valid_coin coin h = rw h

-- A chain of checks passes when its first check and the rest pass.
pub chain_passed :
    (first rest : Check) → (first >>= λ _. rest) ≡ ok tt → (first ≡ ok tt) × (rest ≡ ok tt)
chain_passed (err x) rest h = cc
chain_passed (ok tt) rest h = (refl, h)

module _ {ℓ} {Value : Type ℓ} (check : Keyed Value → Check) (unsorted : String) where
  -- What a list is accepted for: each entry has a key and passes the check, and the keys ascend.
  abbrev pub Accepted : List (Keyed Value) → Type ℓ
  Accepted vs = All HasKey vs × (All (λ v. check v ≡ ok tt) vs × Ascending vs)

  still_under :
      (low : String) (v : Keyed Value) (vs : List (Keyed Value))
      → Below low v
      → All (Below v.key) vs
      → All (Below low) vs
  still_under low v [] p q = tt
  still_under low v (w ∷ ws) p q =
      (codes_lt_trans (codes low) (codes v.key) (codes w.key) p q.0, still_under low v ws p q.1)

  -- What one turn of the loop has seen when the loop ends well.
  turn_passed :
      (last : String) (v : Keyed Value) (vs : List (Keyed Value))
      → sorted_loop check unsorted last (v ∷ vs) ≡ ok tt
      → (HasKey v)
        × (check v ≡ ok tt)
        × ((last == "") ≡ false → Below last v)
        × (sorted_loop check unsorted v.key vs ≡ ok tt)
  unfolding sorted_loop
  turn_passed last v vs h =
      let (coin, h₁) = chain_passed (valid_coin v.key) _ h in
      let (passed, h₂) = chain_passed (check v) _ h₁ in
      let (order, h₃) =
        chain_passed (require (not (not (last == "") && not (text_lt last v.key))) unsorted)
          (sorted_loop check unsorted v.key vs) h₂ in
      (
        valid_coin-eq-ok v.key coin,
        passed,
        guard_passed (last == "") (text_lt last v.key) (require_passed _ unsorted order),
        h₃,
      )

  loop_accepts :
      (last : String) (vs : List (Keyed Value))
      → (last == "") ≡ false
      → sorted_loop check unsorted last vs ≡ ok tt
      → All (Below last) vs × (Accepted vs)
  loop_accepts last [] e h = (tt, (tt, (tt, tt)))
  loop_accepts last (v ∷ vs) e h =
      let (has_key, passed, below, rest) = turn_passed last v vs h in
      let (later, (keys, (checks, ascending))) =
        loop_accepts v.key vs (key_not_empty v.key has_key) rest in
      (
        (below e, still_under last v vs (below e) later),
        ((has_key, keys), ((passed, checks), (later, ascending))),
      )

  loop_takes :
      (last : String) (vs : List (Keyed Value))
      → All (Below last) vs
      → Accepted vs
      → sorted_loop check unsorted last vs ≡ ok tt
  unfolding sorted_loop
  loop_takes last [] low accepted = refl
  loop_takes last (v ∷ vs) low (keys, (checks, ascending)) =
      rw (ok-valid_coin v.key keys.0, checks.0, low.0, ordered (last == ""))
        (loop_takes v.key vs ascending.0 (keys.1, (checks.1, ascending.1)))
    where
      ordered : (start : Bool) → not (not start && not true) ≡ true
      ordered true = refl
      ordered false = refl

  from_start : (vs : List (Keyed Value)) → sorted_loop check unsorted "" vs ≡ ok tt → Accepted vs
  from_start [] h = (tt, (tt, tt))
  from_start (v ∷ vs) h =
      let (has_key, passed, _, rest) = turn_passed "" v vs h in
      let (later, (keys, (checks, ascending))) =
        loop_accepts v.key vs (key_not_empty v.key has_key) rest in
      ((has_key, keys), ((passed, checks), (later, ascending)))

  to_start : (vs : List (Keyed Value)) → Accepted vs → sorted_loop check unsorted "" vs ≡ ok tt
  unfolding sorted_loop
  to_start [] accepted = refl
  to_start (v ∷ vs) (keys, (checks, ascending)) =
      rw (ok-valid_coin v.key keys.0, checks.0)
        (loop_takes v.key vs ascending.0 (keys.1, (checks.1, ascending.1)))

  -- The loop accepts a tuple list exactly when each of its entries has a key and passes the check,
  -- and its keys ascend strictly.
  pub sorted_loop-iff-Accepted :
      (vs : List (Keyed Value)) → (sorted_loop check unsorted "" vs ≡ ok tt) ↔ (Accepted vs)
  sorted_loop-iff-Accepted vs = (from_start vs, to_start vs)
