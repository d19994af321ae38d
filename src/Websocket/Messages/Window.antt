-- ===== src/Websocket/Messages/Window.antt =====
-- websocket/rate.go: how many messages a window of time holds.
use hypersdk_go.Prelude.Int.{ℤ}
use hypersdk_go.Prelude.{
  ℕ, ◌+◌, ◌<◌, ◌≤◌, ◌≡◌, refl, subst, Bool, true, ◌&&◌, List, [], ◌∷◌, ◌++◌, length, count_by, ltb,
  leb, if◌then◌else◌, none, some, Context, arith, Bool-cases, inl, inr, ltb→lt,
}
use hypersdk_go.Websocket.Messages.{Limiter, new_limiter, Round, admitted, drop_old, sleep, attempt}

-- The times of the messages that the rounds admit, newest first, after those before.
abbrev logged : Round → ℕ → List ℕ → List ℕ
logged admitted now log = now ∷ log
logged _ now log = log

unfoldable pub message_log : Limiter → List (Context × ℕ) → List ℕ → List ℕ
message_log l [] log = log
message_log l ((ctx, now) ∷ more) log =
    message_log (attempt ctx now l).1 more (logged (attempt ctx now l).0 now log)

-- The clock never goes back, from a time on.
abbrev pub Forward : ℕ → List (Context × ℕ) → Type 0
Forward start [] = Unit
Forward start ((ctx, now) ∷ more) = (start ≤ now) × Forward now more

-- A message that still counts at a time.
abbrev recent : ℕ → ℕ → ℕ → Bool
recent window now s = ltb now (s + window)

-- A message of the window that ends at a time.
abbrev pub in_window : ℕ → ℕ → ℕ → Bool
in_window window last s = leb s last && ltb last (s + window)

-- Each message was sent with fewer than the limit in its window before it.
abbrev Spaced : ℕ → ℕ → List ℕ → Type 0
Spaced limit window [] = Unit
Spaced limit window (now ∷ older) =
    (count_by (recent window now) older < limit) × Spaced limit window older

count_window-recent :
    (window last now : ℕ) (older : List ℕ)
    → now ≤ last
    → count_by (in_window window last) older ≤ count_by (recent window now) older
count_window-recent window last now [] h = omega arith
count_window-recent window last now (s ∷ older) h =
    ground (arith, count_window-recent window last now older h)

count_window :
    (limit window last : ℕ) (log : List ℕ)
    → Spaced limit window log
    → count_by (in_window window last) log ≤ limit
count_window limit window last [] h = omega arith
count_window limit window last (now ∷ older) h =
    ground
      (arith, count_window limit window last older h.1, count_window-recent window last now older)

count_by-length : (p : ℕ → Bool) (xs : List ℕ) → count_by p xs ≤ length xs
count_by-length p [] = omega arith
count_by-length p (x ∷ xs) = ground (arith, count_by-length p xs)

count_by-snoc :
    (p : ℕ → Bool) (xs : List ℕ) (x : ℕ)
    → count_by p (xs ++ x ∷ []) ≡ count_by p xs + (if p x then 1 else 0)
count_by-snoc p [] x = ground arith
count_by-snoc p (y ∷ ys) x = omega (arith, count_by-snoc p ys x)

-- What is dropped counts no more.
drop_old-recent :
    (window now later : ℕ) (sent : List ℕ)
    → now ≤ later
    → count_by (recent window later) (drop_old window now sent)
      ≡ count_by (recent window later) sent
unfolding drop_old
drop_old-recent window now later [] h = refl
drop_old-recent window now later (s ∷ more) h =
    ground (arith, drop_old-recent window now later more h)

-- The limiter still knows every message that counts, and each message had its place.
record IsWithin (last : ℕ) (l : Limiter) (log : List ℕ) : Type 0 where
  known :
      (later : ℕ)
      → last ≤ later
      → count_by (recent l.window later) log ≤ count_by (recent l.window later) l.sent
  spaced : Spaced l.limit l.window log

sleep-logged : (window now : ℕ) (sent log : List ℕ) → logged (sleep window now sent) now log ≡ log
sleep-logged window now [] log = refl
sleep-logged window now (s ∷ more) log = refl

module _ (last now : ℕ) (l : Limiter) (log : List ℕ) (h : last ≤ now)
    (w : IsWithin last l log) where
  abbrev kept : List ℕ
  kept = drop_old l.window now l.sent

  dropped-IsWithin : IsWithin now (record { limit = l.limit; window = l.window; sent = kept }) log
  dropped-IsWithin = record {
    known =
        λ later k. rw (drop_old-recent l.window now later l.sent k) (w.known later (omega arith));
    spaced = w.spaced;
  }

  sent-IsWithin :
      ltb (length kept) l.limit ≡ true
      → IsWithin now
          (record { limit = l.limit; window = l.window; sent = kept ++ now ∷ [] })
          (now ∷ log)
  sent-IsWithin room = record {
    known = λ later k. omega (
      arith,
      count_by-snoc (recent l.window later) kept now,
      drop_old-recent l.window now later l.sent k,
      w.known later (omega arith),
    );
    spaced = (
      omega (
        arith,
        ltb→lt (length kept) l.limit room,
        count_by-length (recent l.window now) kept,
        drop_old-recent l.window now now l.sent (omega arith),
        w.known now h,
      ),
      w.spaced,
    );
  }

attempt-IsWithin :
    (ctx : Context) (last now : ℕ) (l : Limiter) (log : List ℕ)
    → last ≤ now
    → IsWithin last l log
    → IsWithin now (attempt ctx now l).1 (logged (attempt ctx now l).0 now log)
unfolding attempt
attempt-IsWithin (some e) last now l log h w = record {
  known = λ later k. w.known later (omega arith);
  spaced = w.spaced;
}
attempt-IsWithin none last now l log h w =
    elim (Bool-cases (ltb (length (drop_old l.window now l.sent)) l.limit)) [
      | inl room ↦ rw room (sent-IsWithin last now l log h w room)
      | inr full ↦
          rw (full, sleep-logged l.window now (drop_old l.window now l.sent) log)
            (dropped-IsWithin last now l log h w)
    ]

attempt-limit :
    (ctx : Context) (now : ℕ) (l : Limiter)
    → ((attempt ctx now l).1.limit ≡ l.limit) × ((attempt ctx now l).1.window ≡ l.window)
unfolding attempt
attempt-limit (some e) now l = (refl, refl)
attempt-limit none now l = elim (Bool-cases (ltb (length (drop_old l.window now l.sent)) l.limit)) [
  | inl room ↦ rw room (refl, refl)
  | inr full ↦ rw full (refl, refl)
]

same_settings :
    {limit limit' window window' : ℕ} (log : List ℕ)
    → limit ≡ limit'
    → window ≡ window'
    → Spaced limit window log
    → Spaced limit' window' log
same_settings log h k s = subst (λ x. x) (λ i. Spaced (h i) (k i) log) s

message_log-Spaced :
    (last : ℕ) (l : Limiter) (rounds : List (Context × ℕ)) (log : List ℕ)
    → Forward last rounds
    → IsWithin last l log
    → Spaced l.limit l.window (message_log l rounds log)
unfolding message_log
message_log-Spaced last l [] log f w = w.spaced
message_log-Spaced last l ((ctx, now) ∷ more) log f w =
    let next = (attempt ctx now l).1 in
    let rest : Spaced next.limit next.window
        (message_log next more (logged (attempt ctx now l).0 now log)) =
      message_log-Spaced now next more (logged (attempt ctx now l).0 now log) f.1
        (attempt-IsWithin ctx last now l log f.0 w) in
    same_settings (message_log next more (logged (attempt ctx now l).0 now log))
      (attempt-limit ctx now l).0 (attempt-limit ctx now l).1 rest

-- A new limiter with any settings, any rounds of any callers, and a clock that never goes back: at
-- most as many messages as the limit are admitted in any window of the window's length, whenever it
-- ends.
pub messages_in_window :
    (limit window : ℤ) (rounds : List (Context × ℕ)) (start last : ℕ)
    → Forward start rounds
    → count_by
        (in_window (new_limiter limit window).window last)
        (message_log (new_limiter limit window) rounds [])
      ≤ (new_limiter limit window).limit
unfolding new_limiter
messages_in_window limit window rounds start last f =
    let l = new_limiter limit window in
    count_window l.limit l.window last (message_log l rounds []) (
      message_log-Spaced start l rounds [] f
        (record { known = λ later k. omega arith; spaced = tt }))
