-- ===== src/Websocket/Posts/InFlight.antt =====
-- websocket/post_admission.go: the slots against the release functions.
use hypersdk_go.Prelude.Int.{ℤ, pos, negsuc}
use hypersdk_go.Prelude.{
  ℕ, zero, suc, ◌<◌, ◌≤◌, ◌≡◌, ◌↔◌, refl, Bool, true, false, not, Option, none, some, List, [], ◌∷◌,
  get_elem?, count_by, count_by-set, ltb, Context, arith, Bool-cases, inl, inr, lt→ltb, ltb→lt,
}
use hypersdk_go.Websocket.Posts.{
  Gate, new_gate, granted, blocked, acquire, System, grant, release, Operation, acquires, releases,
  step, run, started,
}

-- How many release functions were not called yet.
abbrev pub in_flight : System → ℕ
in_flight s = count_by not s.spent

record IsCounted (limit : ℕ) (s : System) : Type 0 where
  same_limit : s.gate.limit ≡ limit
  counted : s.gate.held ≡ in_flight s
  bounded : s.gate.held ≤ limit

acquire-IsCounted :
    (limit : ℕ) (ctx : Context) (s : System)
    → IsCounted limit s
    → IsCounted limit (grant s.spent (acquire ctx s.gate))
unfolding acquire
acquire-IsCounted limit (some e) s c = c
acquire-IsCounted limit none s c = elim (Bool-cases (ltb s.gate.held s.gate.limit)) [
  | inl room ↦ rw room (record {
    same_limit = c.same_limit;
    counted = omega (arith, c.counted);
    bounded = omega (arith, ltb→lt s.gate.held s.gate.limit room, c.same_limit);
  })
  | inr full ↦ rw full c
]

release-IsCounted :
    (limit i : ℕ) (s : System) (found : Option Bool)
    → get_elem? s.spent i ≡ found
    → IsCounted limit s
    → IsCounted limit (release s i found)
release-IsCounted limit i s none h c = c
release-IsCounted limit i s (some true) h c = c
release-IsCounted limit i s (some false) h c = record {
  same_limit = c.same_limit;
  counted = omega (arith, c.counted, count_by-set not s.spent i true false h);
  bounded = omega (arith, c.bounded);
}

run-IsCounted :
    (limit : ℕ) (s : System) (operations : List Operation)
    → IsCounted limit s
    → IsCounted limit (run s operations)
unfolding run step
run-IsCounted limit s [] c = c
run-IsCounted limit s (acquires ctx ∷ more) c =
    run-IsCounted limit (grant s.spent (acquire ctx s.gate)) more (acquire-IsCounted limit ctx s c)
run-IsCounted limit s (releases i ∷ more) c =
    run-IsCounted limit (release s i (get_elem? s.spent i)) more
      (release-IsCounted limit i s (get_elem? s.spent i) refl c)

started-IsCounted : (limit : ℤ) → IsCounted (new_gate limit).limit (started limit)
unfolding new_gate
started-IsCounted (pos zero) = record { same_limit = refl; counted = refl; bounded = omega arith }
started-IsCounted (pos (suc n)) = record {
  same_limit = refl;
  counted = refl;
  bounded = omega arith;
}
started-IsCounted (negsuc n) = record { same_limit = refl; counted = refl; bounded = omega arith }

granted_room : (g : Gate) → (acquire none g).0 ≡ granted → g.held < g.limit
unfolding acquire
granted_room g h = elim (Bool-cases (ltb g.held g.limit)) [
  | inl room ↦ ltb→lt g.held g.limit room
  | inr full ↦ let answer : blocked ≡ granted = rw full at h in cc
]

room_granted : (g : Gate) → g.held < g.limit → (acquire none g).0 ≡ granted
unfolding acquire
room_granted g h = rw (lt→ltb g.held g.limit h) refl

-- After any acquisitions and calls of release functions, repeated calls included, at most as many
-- posts are in flight as the gate's limit; and an acquisition is granted exactly while fewer are.
pub posts_in_flight :
    (limit : ℤ) (operations : List Operation)
    → (in_flight (run (started limit) operations) ≤ (new_gate limit).limit)
      × (((acquire none (run (started limit) operations).gate).0 ≡ granted)
          ↔ (in_flight (run (started limit) operations) < (new_gate limit).limit))
posts_in_flight limit operations =
    let s = run (started limit) operations in
    let c : IsCounted (new_gate limit).limit s =
      run-IsCounted (new_gate limit).limit (started limit) operations (started-IsCounted limit) in
    (
      omega (arith, c.counted, c.bounded),
      (
        λ h. omega (arith, c.counted, c.same_limit, granted_room s.gate h),
        λ h. room_granted s.gate (omega (arith, c.counted, c.same_limit)),
      ),
    )
