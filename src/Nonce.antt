-- ===== src/Nonce.antt =====
-- nonce/manager.go. A call holds the mutex throughout, so a history of calls is a sequence. The
-- clock and the context are arguments of each call; addresses are a type with equality.
pub mod Monotonic
mod Examples
use hypersdk_go.Prelude.Int.{ℤ, to_u64, two_64}
use hypersdk_go.Prelude.Maps.{or_zero, lookup, insert}
use hypersdk_go.Prelude.{
  ℕ, ◌+◌, ◌%◌, Bool, Option, none, some, List, [], ◌∷◌, Result, ok, err, Context, ContextError,
  Equality, ◌==◌, leb, if◌then◌else◌,
}

-- `MonotonicManager`, without its mutex and clock.
pub record MonotonicManager (Address : Type 0) : Type 0 where
  pub last : List (Address × ℕ)

-- `NewMonotonicManager`
unfoldable pub new_monotonic_manager : {Address : Type 0} → MonotonicManager Address
new_monotonic_manager = record { last = [] }

-- The nonce that `Next` computes under the lock.
unfoldable pub fresh : ℕ → ℕ → ℕ
fresh n last = if leb n last then (last + 1) % two_64 else n

module _ {Address : Type 0} ⦃e : Equality Address⦄ where
  abbrev pub last_of : MonotonicManager Address → Address → ℕ
  last_of m address = or_zero (lookup address m.last)

  -- `Next`
  unfoldable pub next :
      Context
      → ℤ
      → Address
      → MonotonicManager Address
      → Result ContextError ℕ × MonotonicManager Address
  unfolding fresh
  next (some e) now address m = (err e, m)
  next none now address m =
      let n = fresh (to_u64 now) (last_of m address) in
      (ok n, record m { last = insert address n m.last })
