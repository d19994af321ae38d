-- ===== src/Nonce/Monotonic.antt =====
-- nonce/manager.go: the nonces of one address over a history of calls.
use hypersdk_go.Prelude.Int.{pos, to_u64, two_64}
use hypersdk_go.Prelude.Maps.{lookup, lookup-insert}
use hypersdk_go.Prelude.{
  ℕ, ◌+◌, ◌≤◌, ◌<◌, ◌≡◌, refl, ap, none, some, List, [], ◌∷◌, Result, ok, err, Context,
  ContextError, Equality, ◌==◌, if◌then◌else◌, length, All, arith, Bool-cases, inl, inr,
}
use hypersdk_go.Nonce.{MonotonicManager, new_monotonic_manager, last_of, fresh, next}

-- A call of `Next`: its context, the reading of the clock, and the address.
pub record Call (Address : Type 0) : Type 0 where
  pub context : Context
  pub now : ℕ
  pub address : Address

fresh_bounds :
    (now last bound : ℕ)
    → now ≤ bound
    → last ≤ bound
    → bound + 1 < two_64
    → (last < fresh (to_u64 (pos now)) last) × (fresh (to_u64 (pos now)) last ≤ bound + 1)
unfolding fresh
fresh_bounds now last bound h k w = ground arith

-- Above `low` and strictly rising.
abbrev pub Ascending : ℕ → List ℕ → Type 0
Ascending low [] = Unit
Ascending low (n ∷ ns) = (low < n) × Ascending n ns

-- What a call answers: a nonce, or the error of its context.
abbrev pub Answers : Context → Result ContextError ℕ → Type 0
Answers none (ok n) = Unit
Answers (some x) (err y) = x ≡ y
Answers _ _ = ⊥

-- Each call has its answer, in order.
abbrev pub EachAnswered :
    {Address : Type 0} → List (Call Address) → List (Address × Result ContextError ℕ) → Type 0
EachAnswered [] [] = Unit
EachAnswered (c ∷ cs) ((a, r) ∷ rs) = (a ≡ c.address) × Answers c.context r × EachAnswered cs rs
EachAnswered _ _ = ⊥

module _ {Address : Type 0} ⦃e : Equality Address⦄ where
  -- What a history of calls gave out, oldest first, and the manager after it.
  unfoldable pub run :
      List (Call Address)
      → MonotonicManager Address
      → List (Address × Result ContextError ℕ) × MonotonicManager Address
  run [] m = ([], m)
  run (c ∷ cs) m =
      let (r, m') = next c.context (pos c.now) c.address m in
      let (rs, m'') = run cs m' in ((c.address, r) ∷ rs, m'')

  -- The nonces that one address was given, oldest first; calls that failed give none.
  unfoldable pub nonces : Address → List (Address × Result ContextError ℕ) → List ℕ
  nonces a [] = []
  nonces a ((b, err x) ∷ rs) = nonces a rs
  nonces a ((b, ok n) ∷ rs) = let rest = nonces a rs in if b == a then n ∷ rest else rest

  next-Answers :
      (c : Context) (now : ℕ) (a : Address) (m : MonotonicManager Address)
      → Answers c (next c (pos now) a m).0
  unfolding next
  next-Answers none now a m = tt
  next-Answers (some x) now a m = refl

  run-EachAnswered :
      (cs : List (Call Address)) (m : MonotonicManager Address) → EachAnswered cs (run cs m).0
  unfolding run
  run-EachAnswered [] m = tt
  run-EachAnswered (c ∷ cs) m =
      (refl, next-Answers c.context c.now c.address m, run-EachAnswered cs _)

  pub next_lem :
      (c : Context) (now : ℕ) (a b : Address) (m : MonotonicManager Address)
      → last_of (next c (pos now) a m).1 b ≡ elim c [
        | none ↦ if a == b then fresh (to_u64 (pos now)) (last_of m a) else last_of m b
        | some x ↦ last_of m b
      ]
  unfolding next
  next_lem none now a b m =
      ground (arith, lookup-insert a b (fresh (to_u64 (pos now)) (last_of m a)) m.last)
  next_lem (some x) now a b m = refl

  AtMost : ℕ → MonotonicManager Address → Type 0
  AtMost bound m = (b : Address) → last_of m b ≤ bound

  next-AtMost :
      (c : Context) (now : ℕ) (a : Address) (m : MonotonicManager Address) (bound : ℕ)
      → AtMost bound m
      → now ≤ bound
      → bound + 1 < two_64
      → AtMost (bound + 1) (next c (pos now) a m).1
  unfolding AtMost
  next-AtMost none now a m bound h k w b =
      ground (arith, next_lem none now a b m, fresh_bounds now (last_of m a) bound, h a, h b)
  next-AtMost (some x) now a m bound h k w b = ground (arith, next_lem (some x) now a b m, h b)

  Within : ℕ → List (Call Address) → Type 0
  Within bound = All (λ c. c.now ≤ bound)

  Within-mono : (b : ℕ) (cs : List (Call Address)) → Within b cs → Within (b + 1) cs
  unfolding Within
  Within-mono b [] h = tt
  Within-mono b (c ∷ cs) h = (omega arith, Within-mono b cs h.1)

  -- One call, before a history that rises from where the call leaves the address.
  next-Ascending :
      (c : Context) (now : ℕ) (a b : Address) (m : MonotonicManager Address) (bound : ℕ)
      (rs : List (Address × Result ContextError ℕ))
      → AtMost bound m
      → now ≤ bound
      → bound + 1 < two_64
      → Ascending (last_of (next c (pos now) b m).1 a) (nonces a rs)
      → Ascending (last_of m a) (nonces a ((b, (next c (pos now) b m).0) ∷ rs))
  unfolding next nonces AtMost
  next-Ascending none now a b m bound rs h k w r =
      let law = lookup-insert b a (fresh (to_u64 (pos now)) (last_of m b)) m.last in
      elim (Bool-cases (b == a)) [
        | inl same ↦
            let here = (e.equals_iff b a).0 same in
            rw same (
              rw (← ap (last_of m) here) (fresh_bounds now (last_of m b) bound k (h b) w).0,
              rw (law, same) at r,
            )
        | inr other ↦ rw other (rw (law, other) at r)
      ]
  next-Ascending (some x) now a b m bound rs h k w r = r

  run-Ascending :
      (cs : List (Call Address)) (m : MonotonicManager Address) (a : Address) (bound : ℕ)
      → AtMost bound m
      → Within bound cs
      → bound + length cs < two_64
      → Ascending (last_of m a) (nonces a (run cs m).0)
  unfolding run Within nonces
  run-Ascending [] m a bound h k w = tt
  run-Ascending (c ∷ cs) m a bound h k w =
      next-Ascending c.context c.now a c.address m bound _ h k.0 (omega arith) (
        run-Ascending cs _ a (bound + 1)
          (next-AtMost c.context c.now c.address m bound h k.0 (omega arith))
          (Within-mono bound cs k.1) (omega arith))

  -- A new manager gives each address positive, strictly rising nonces, whatever the interleaving
  -- of the calls for the addresses, when every clock reading is at most `bound` and `bound` plus
  -- the number of calls stays below 2^64. A call gives a nonce exactly when its context is live, and
  -- else the error of the context.
  pub run-new-Ascending :
      (cs : List (Call Address)) (a : Address) (bound : ℕ)
      → All (λ c. c.now ≤ bound) cs
      → bound + length cs < two_64
      → Ascending 0 (nonces a (run cs new_monotonic_manager).0)
        × EachAnswered cs (run cs new_monotonic_manager).0
  unfolding new_monotonic_manager AtMost Within lookup
  run-new-Ascending cs a bound k w = (
    run-Ascending cs new_monotonic_manager a bound (λ b. omega arith) k w,
    run-EachAnswered cs new_monotonic_manager,
  )
