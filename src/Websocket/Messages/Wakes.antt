-- ===== src/Websocket/Messages/Wakes.antt =====
-- websocket/rate.go: a caller that slept finds room.
use hypersdk_go.Prelude.Int.{ℤ, pos, negsuc}
use hypersdk_go.Prelude.{
  ℕ, zero, suc, ◌+◌, ◌-◌, ◌<◌, ◌≤◌, ◌≡◌, refl, true, false, List, [], ◌∷◌, length, length-append,
  ltb, none, some, Context, arith, Bool-cases, inl, inr, ◌⊎◌, ltb→lt,
}
use hypersdk_go.Websocket.Messages.{
  Limiter, new_limiter, Round, admitted, asleep, drop_old, sleep, attempt, run,
}

-- Room for one message at least, and no more messages than the limit.
record Fits (l : Limiter) : Type 0 where
  some_room : 0 < l.limit
  no_more : length l.sent ≤ l.limit

length-drop_old : (window now : ℕ) (sent : List ℕ) → length (drop_old window now sent) ≤ length sent
unfolding drop_old
length-drop_old window now [] = omega arith
length-drop_old window now (s ∷ more) = ground (arith, length-drop_old window now more)

attempt-Fits : (ctx : Context) (now : ℕ) (l : Limiter) → Fits l → Fits (attempt ctx now l).1
unfolding attempt
attempt-Fits (some e) now l f = f
attempt-Fits none now l f =
    elim (Bool-cases (ltb (length (drop_old l.window now l.sent)) l.limit)) [
      | inl room ↦ rw room (record {
        some_room = f.some_room;
        no_more = omega (
          arith,
          length-append (drop_old l.window now l.sent) (now ∷ []),
          ltb→lt (length (drop_old l.window now l.sent)) l.limit room,
        );
      })
      | inr full ↦ rw full (record {
        some_room = f.some_room;
        no_more = omega (arith, f.no_more, length-drop_old l.window now l.sent);
      })
    ]

run-Fits : (l : Limiter) (rounds : List (Context × ℕ)) → Fits l → Fits (run l rounds)
unfolding run
run-Fits l [] f = f
run-Fits l ((ctx, now) ∷ more) f = run-Fits (attempt ctx now l).1 more (attempt-Fits ctx now l f)

new-Fits : (limit window : ℤ) → Fits (new_limiter limit window)
unfolding new_limiter
new-Fits (pos zero) window = record { some_room = omega arith; no_more = omega arith }
new-Fits (pos (suc n)) window = record { some_room = omega arith; no_more = omega arith }
new-Fits (negsuc n) window = record { some_room = omega arith; no_more = omega arith }

-- A full list sleeps until its first message is old, and then has room.
slept :
    (limit window now later s : ℕ) (more : List ℕ)
    → length (s ∷ more) ≤ limit
    → now + (s + window - now) ≤ later
    → ltb (length (drop_old window later (s ∷ more))) limit ≡ true
unfolding drop_old
slept limit window now later s more fits h = ground (arith, length-drop_old window later more)

admitted_if :
    (l : Limiter) (later : ℕ)
    → ltb (length (drop_old l.window later l.sent)) l.limit ≡ true
    → (attempt none later l).0 ≡ admitted
unfolding attempt
admitted_if l later room = rw room refl

abbrev pub Answered : ℕ → Round × Limiter → Type 0
Answered now (round, l) =
    (round ≡ admitted)
    ⊎ ((d : ℕ) × (round ≡ asleep d)
        × ((later : ℕ) → now + d ≤ later → (attempt none later l).0 ≡ admitted))

full-Answered :
    (limit window now : ℕ) (kept : List ℕ)
    → 0 < limit
    → length kept ≤ limit
    → ltb (length kept) limit ≡ false
    → Answered now (sleep window now kept, record { limit = limit; window = window; sent = kept })
full-Answered limit window now [] room fits full = absurd (ground arith)
full-Answered limit window now (s ∷ more) room fits full = inr (
  s + window - now,
  refl,
  λ later h.
      admitted_if (record { limit = limit; window = window; sent = s ∷ more }) later
        (slept limit window now later s more fits h),
)

-- A new limiter with any settings after any rounds: a round on a live context admits its message,
-- or it tells the caller how long to sleep, and the caller's next round after that time is admitted
-- when no other round came between; the list is never read out of range.
pub attempt_answers :
    (limit window : ℤ) (rounds : List (Context × ℕ)) (now : ℕ)
    → Answered now (attempt none now (run (new_limiter limit window) rounds))
unfolding attempt
attempt_answers limit window rounds now =
    let l = run (new_limiter limit window) rounds in
    let f : Fits l = run-Fits (new_limiter limit window) rounds (new-Fits limit window) in
    let kept = drop_old l.window now l.sent in
    elim (Bool-cases (ltb (length kept) l.limit)) [
      | inl room ↦ rw room (inl refl)
      | inr full ↦ rw full (
          full-Answered l.limit l.window now kept f.some_room
            (omega (arith, f.no_more, length-drop_old l.window now l.sent)) full)
    ]
