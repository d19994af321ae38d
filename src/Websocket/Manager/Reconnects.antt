-- ===== src/Websocket/Manager/Reconnects.antt =====
-- websocket/manager.go: the loop of `run` around its connections, with `waitReconnect`: which
-- attempt the reconnect policy is asked about. What the goroutines see in a round of the loop is an
-- argument. How long a wait lasts is not modelled: it ends with its timer or before.
mod Examples
use Prim.Native.Nat.{min}
use hypersdk_go.Prelude.Int.{ℤ, pos, ltb_ℤ, ◌≤ℤ◌, ◌<ℤ◌, two_63}
use hypersdk_go.Prelude.{
  ℕ, ◌+◌, ◌*◌, ◌/◌, ◌^◌, ◌≤◌, ◌<◌, ◌≡◌, refl, subst, Bool, true, false, ◌||◌, Option-cases, inl,
  inr, Option, none, some, List, [], ◌∷◌, ◌++◌, count_by, if◌then◌else◌, arith,
}
use hypersdk_go.Websocket.Reconnect.{new_policy, delay}
use hypersdk_go.Websocket.Reconnect.Bounds.{settled_initial, settled_max, new_policy-delay}

pub data ReconnectWaitResult : Type 0 where
  stopped elapsed woken : ReconnectWaitResult

-- How a `waitReconnect` goes: the manager is closed; nothing is subscribed, and
-- `waitForSubscriptions` answers; or the branch of the select, and whether the manager is closed
-- behind it.
pub data Wait : Type 0 where
  closed : Wait
  unsubscribed : Bool → Wait
  selected : ReconnectWaitResult → Bool → Wait

-- `waitReconnect`
unfoldable pub wait_reconnect : Wait → ReconnectWaitResult
wait_reconnect closed = stopped
wait_reconnect (unsubscribed subscribed) = if subscribed then woken else stopped
wait_reconnect (selected result closed_behind) = if closed_behind then stopped else result

-- Whether the policy is asked for a delay.
abbrev pub asks_delay : Wait → Bool
asks_delay (selected result closed_behind) = true
asks_delay _ = false

-- A round of the loop: whether there is a subscription, whether the dial succeeds, and the wait at
-- its end.
pub record Round : Type 0 where
  pub subscribed : Bool
  pub dialled : Bool
  pub wait : Wait

abbrev pub next_attempt : ℕ → ReconnectWaitResult → Option ℕ
next_attempt attempt stopped = none
next_attempt attempt elapsed = some (attempt + 1)
next_attempt attempt woken = some attempt

-- The attempt that a round waits with: a successful dial ends a streak of failures.
abbrev pub attempt_of : ℕ → Round → ℕ
attempt_of attempt r = if r.dialled then 0 else attempt

abbrev pub asked_attempt : ℕ → Round → List ℕ
asked_attempt attempt r = if asks_delay r.wait then attempt_of attempt r ∷ [] else []

-- A round of `run` from an attempt on: the attempt that the policy is asked about, if it is, and
-- the attempt of the next round, unless the loop returns.
unfoldable pub run_round : ℕ → Round → List ℕ × Option ℕ
run_round attempt r =
    if r.subscribed
    then (asked_attempt attempt r, next_attempt (attempt_of attempt r) (wait_reconnect r.wait))
    else ([], none)

-- `run`
unfoldable pub run_rounds : Option ℕ → List Round → List ℕ × Option ℕ
run_rounds none rounds = ([], none)
run_rounds (some attempt) [] = ([], some attempt)
run_rounds (some attempt) (r ∷ more) =
    let first = run_round attempt r in
    let rest = run_rounds first.1 more in (first.0 ++ rest.0, rest.1)

-- The rounds from the last successful dial on, or all of them.
abbrev has_dial : List Round → Bool
has_dial [] = false
has_dial (r ∷ rs) = r.dialled || has_dial rs

abbrev pub since_dial : List Round → List Round
since_dial [] = []
since_dial (r ∷ rs) = if has_dial rs then since_dial rs else r ∷ rs

abbrev pub is_elapsed : Round → Bool
is_elapsed r = elim (wait_reconnect r.wait) [ elapsed ↦ true | _ ↦ false ]

no_dial : (rs : List Round) → has_dial rs ≡ false → since_dial rs ≡ rs
no_dial [] h = refl
no_dial (r ∷ rs) h = ground arith

run_round_attempt :
    (n : ℕ) (r : Round) (m : ℕ)
    → (run_round n r).1 ≡ some m
    → m ≡ attempt_of n r + (if is_elapsed r then 1 else 0)
unfolding run_round
run_round_attempt n r m h = ground arith

attempts :
    (n : ℕ) (rounds : List Round) (a : ℕ)
    → (run_rounds (some n) rounds).1 ≡ some a
    → a ≡ (if has_dial rounds then 0 else n) + count_by is_elapsed (since_dial rounds)
unfolding run_rounds
attempts n [] a h = ground arith
attempts n (r ∷ rs) a h = elim (Option-cases (run_round n r).1) [
  | inl gone ↦ let over : none ≡ some a = subst (λ o. (run_rounds o rs).1 ≡ some a) gone h in cc
  | inr (m, on) ↦
      let rest : (run_rounds (some m) rs).1 ≡ some a =
        subst (λ o. (run_rounds o rs).1 ≡ some a) on h in
      ground (arith, attempts m rs a rest, run_round_attempt n r m on, no_dial rs)
]

-- When `rand.Int64N` draws below its bound, and the policy was constructed from two 64-bit delays
-- and no jitter, a wait of the manager that asks the policy asks about attempt k, and is told, for
-- its timer, between half of min(max, initial * 2^k) and all of it, where initial and max are the
-- delays that the constructor settled on, and k counts the waits that elapsed since the last
-- successful dial: a wait that was ended by a new subscription does not count, and a dial that
-- succeeds starts from the initial delay again.
pub run_rounds-delay :
    (draw : ℕ → ℕ) (initial max : ℤ) (a : ℕ) (before : List Round) (r : Round)
    → ((k : ℕ) → 0 < k → draw k < k)
    → initial <ℤ pos two_63
    → max <ℤ pos two_63
    → (run_rounds (some 0) before).1 ≡ some a
    → r.subscribed ≡ true
    → asks_delay r.wait ≡ true
    → let k = if r.dialled then 0 else count_by is_elapsed (since_dial before) in
      let p = new_policy draw initial max none in
      let cap = min (settled_max initial max) (settled_initial initial max * 2 ^ k) in
      ((run_round a r).0 ≡ k ∷ [])
      × (pos (cap / 2) ≤ℤ delay draw (some p) (pos k))
      × (delay draw (some p) (pos k) ≤ℤ pos cap)
unfolding run_round
run_rounds-delay draw initial max a before r u i m running subscribed asks =
    let k = if r.dialled then 0 else count_by is_elapsed (since_dial before) in
    let counted : a ≡ count_by is_elapsed (since_dial before) =
      ground (arith, attempts 0 before a running) in
    let (low, high) = new_policy-delay draw initial max k u i m in
    (rw (subscribed, asks, counted) refl, low, high)
