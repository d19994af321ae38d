-- ===== src/Websocket/Messages/Examples.antt =====
-- websocket/rate.go: runs of the limiter.
use hypersdk_go.Prelude.Int.{pos}
use hypersdk_go.Prelude.{
  ℕ, ◌≤◌, ◌≡◌, refl, none, some, List, [], ◌∷◌, Context, canceled, arith, count_by,
}
use hypersdk_go.Websocket.Messages.{new_limiter, asleep, drop_old, attempt, run}
use hypersdk_go.Websocket.Messages.Window.{message_log, in_window, messages_in_window}
use hypersdk_go.Websocket.Messages.Wakes.{Answered, attempt_answers}

runs : Unit {0}
unfolding new_limiter drop_old attempt run message_log
runs = tt

-- Two messages for each 100 ns; the third caller is early, and comes again.
abbrev rounds : List (Context × ℕ)
rounds = (none, 10) ∷ (none, 20) ∷ (none, 50) ∷ (some canceled, 60) ∷ (none, 110) ∷ []

three_sent : message_log (new_limiter (pos 2) (pos 100)) rounds [] ≡ 110 ∷ 20 ∷ 10 ∷ []
unfolding runs
three_sent = refl

early : (attempt none 50 (record { limit = 2; window = 100; sent = 10 ∷ 20 ∷ [] })).0 ≡ asleep 60
unfolding runs
early = refl

messages_in_window_example :
    count_by
      (in_window (new_limiter (pos 2) (pos 100)).window 109)
      (message_log (new_limiter (pos 2) (pos 100)) rounds [])
    ≤ (new_limiter (pos 2) (pos 100)).limit
messages_in_window_example =
    messages_in_window (pos 2) (pos 100) rounds 5 109
      (omega arith, (omega arith, (omega arith, (omega arith, (omega arith, tt)))))

attempt_answers_example :
    Answered 115 (attempt none 115 (run (new_limiter (pos 2) (pos 100)) rounds))
attempt_answers_example = attempt_answers (pos 2) (pos 100) rounds 115
