-- ===== src/Websocket/Manager/Converges.antt =====
-- websocket/manager.go: what a round of the synchronizer leaves, when nothing comes in between and
-- no write fails.
use hypersdk_go.Json.{Fields}
use hypersdk_go.Prelude.Maps.{lookup, lookup-insert, lookup-delete}
use hypersdk_go.Prelude.{
  ℕ, ◌≡◌, refl, ap, sym, ◌∙◌, subst, Bool, true, false, not, ◌&&◌, ◌||◌, Option, none, some, String,
  string_eq, ◌==◌, ==_refl, List, [], ◌∷◌, arith, Option-cases, inl, inr,
}
use hypersdk_go.Websocket.Wires.{Wire}
use hypersdk_go.Websocket.Registry.{Registry, fingerprint, subscription_identity_state}
use hypersdk_go.Websocket.Manager.{Active}
use hypersdk_go.Websocket.Manager.Sync.{
  idle, Connection, write_admitted, joined_group, take_snapshot, check_active, finish_join,
  commit_unsubscribe, start_subscribe, commit_subscribe,
}
use hypersdk_go.Websocket.Manager.Tracked.{has}
use hypersdk_go.Websocket.Manager.Groups.{group_of, lookup-current, WellKept, Sends, group_of-Sends}
use hypersdk_go.Websocket.Manager.Rounds.{
  keys_of, active_turn, group_turn, turns, sync_subscriptions,
}

-- The identities of some keys.
abbrev among : String → List String → Bool
among i [] = false
among i (k ∷ ks) = (k == i) || among i ks

has-among :
    (i : String) (m : List (String × Active)) → has (lookup i m) ≡ true → among i (keys_of m) ≡ true
unfolding lookup
has-among i [] h = cc
has-among i ((k, a) ∷ m) h = ground (arith, has-among i m)

module _ (marshal : Fields → String) (deadline : ℕ) (r : Registry) (w : WellKept r.subs) where
  abbrev wanted : String → Bool
  wanted i = has (group_of marshal i r.subs)

  group-admitted :
      (i : String) (a : Active)
      → group_of marshal i r.subs ≡ some a
      → write_admitted marshal i true a.wire r ≡ true
  unfolding write_admitted
  group-admitted i a e =
      let s : Sends marshal (some a) (subscription_identity_state marshal i r) =
        subst (λ g. Sends marshal g (subscription_identity_state marshal i r)) e
          (group_of-Sends marshal i r w) in
      rw (s.0, s.1, ==_refl (fingerprint marshal a.wire)) refl

  none-admitted :
      (i : String) (wire : Wire)
      → group_of marshal i r.subs ≡ none
      → write_admitted marshal i false wire r ≡ true
  unfolding write_admitted
  none-admitted i wire e =
      let s : Sends marshal none (subscription_identity_state marshal i r) =
        subst (λ g. Sends marshal g (subscription_identity_state marshal i r)) e
          (group_of-Sends marshal i r w) in
      rw s refl

  wanted-present : (i : String) → wanted i ≡ (subscription_identity_state marshal i r).0
  wanted-present i = go (group_of marshal i r.subs) (group_of-Sends marshal i r w)
    where
      go :
          (g : Option Active)
          → Sends marshal g (subscription_identity_state marshal i r)
          → has g ≡ (subscription_identity_state marshal i r).0
      go none s = sym s
      go (some a) s = sym s.0

  -- Between two turns.
  abbrev Steady : Connection → Type 0
  Steady c =
      (c.generation.registry ≡ r)
      × ((i : String) → lookup i c.current ≡ group_of marshal i r.subs)
      × (c.sync ≡ idle)

  abbrev Turned : (String → Bool) → Bool × Connection → Type 0
  Turned after (goes_on, c) =
      (goes_on ≡ true)
      × Steady c
      × ((j : String) → has (lookup j c.generation.subscribed) ≡ after j)

  active_turn-Turned :
      (i : String) (c : Connection)
      → Steady c
      → Turned
          (λ j. has (lookup j c.generation.subscribed) && (not (i == j) || wanted j))
          (active_turn marshal (λ m. true) deadline i c)
  unfolding check_active finish_join commit_unsubscribe
  active_turn-Turned i c s = elim (Option-cases (lookup i c.generation.subscribed)) [
    | inl absent ↦
        simp (absent, s.2)
          (refl, (s.0, s.1, refl), λ j. ground (arith, string_eq.equals_iff i j, absent))
    | inr (a, found) ↦ elim (Option-cases (lookup i c.current)) [
      | inl gone ↦
          let unwanted : group_of marshal i r.subs ≡ none = sym (s.1 i) ∙ gone in
          simp (found, gone, s.0, none-admitted i _ unwanted)
            (
              refl,
              (refl, s.1, refl),
              λ j. ground (
                arith,
                lookup-delete i j c.generation.subscribed,
                string_eq.equals_iff i j,
                unwanted,
              ),
            )
      | inr (g, there) ↦
          let stays : group_of marshal i r.subs ≡ some g = sym (s.1 i) ∙ there in
          simp (found, there, found)
            (
              refl,
              (s.0, s.1, refl),
              λ j. ground (
                arith,
                lookup-insert i j (joined_group g.members a) c.generation.subscribed,
                string_eq.equals_iff i j,
                found,
                stays,
              ),
            )
    ]
  ]

  group_turn-Turned :
      (i : String) (c : Connection)
      → Steady c
      → Turned
          (λ j. has (lookup j c.generation.subscribed) || (i == j && wanted j))
          (group_turn marshal (λ m. true) deadline i c)
  unfolding start_subscribe commit_subscribe
  group_turn-Turned i c s = elim (Option-cases (lookup i c.current)) [
    | inl gone ↦
        let unwanted : group_of marshal i r.subs ≡ none = sym (s.1 i) ∙ gone in
        simp (gone, s.2)
          (refl, (s.0, s.1, refl), λ j. ground (arith, string_eq.equals_iff i j, unwanted))
    | inr (g, there) ↦
        let stays : group_of marshal i r.subs ≡ some g = sym (s.1 i) ∙ there in
        elim (Option-cases (lookup i c.generation.subscribed)) [
          | inl absent ↦
              simp (there, absent, s.0, group-admitted i g stays)
                (
                  refl,
                  (refl, s.1, refl),
                  λ j. ground (
                    arith,
                    lookup-insert i j g c.generation.subscribed,
                    string_eq.equals_iff i j,
                    stays,
                  ),
                )
          | inr (a, found) ↦
              simp (there, found, s.2)
                (refl, (s.0, s.1, refl), λ j. ground (arith, string_eq.equals_iff i j, found))
        ]
  ]

  active_turns-Turned :
      (is : List String) (c : Connection)
      → Steady c
      → Turned
          (λ j. has (lookup j c.generation.subscribed) && (not (among j is) || wanted j))
          (turns (active_turn marshal (λ m. true) deadline) is c)
  unfolding turns
  active_turns-Turned [] c s = (refl, s, λ j. ground arith)
  active_turns-Turned (i ∷ is) c s =
      let first = active_turn-Turned i c s in
      let rest = active_turns-Turned is (active_turn marshal (λ m. true) deadline i c).1 first.1 in
      rw first.0 (rest.0, rest.1, λ j. ground (arith, first.2 j, rest.2 j))

  group_turns-Turned :
      (is : List String) (c : Connection)
      → Steady c
      → Turned
          (λ j. has (lookup j c.generation.subscribed) || (among j is && wanted j))
          (turns (group_turn marshal (λ m. true) deadline) is c)
  unfolding turns
  group_turns-Turned [] c s = (refl, s, λ j. ground arith)
  group_turns-Turned (i ∷ is) c s =
      let first = group_turn-Turned i c s in
      let rest = group_turns-Turned is (group_turn marshal (λ m. true) deadline i c).1 first.1 in
      rw first.0 (rest.0, rest.1, λ j. ground (arith, first.2 j, rest.2 j))

  seen-Steady : (c : Connection) → c.generation.registry ≡ r → Steady (take_snapshot marshal c)
  unfolding take_snapshot
  seen-Steady c h = (
    h,
    λ i.
        lookup-current marshal i c.generation.registry.subs ∙ ap (λ x. group_of marshal i x.subs) h,
    refl,
  )

-- On a registry that has each key once and each subscription under its own key, a round of the
-- synchronizer that nothing interrupts and whose writes succeed is successful, leaves the registry
-- as it is, and ends with exactly the identities of the registered subscriptions active, whatever
-- was active before: a new connection is brought to the registry, and so is one that has fallen
-- behind.
pub sync_subscriptions-present :
    (marshal : Fields → String) (deadline : ℕ) (c : Connection)
    → WellKept c.generation.registry.subs
    → let (goes_on, d) = sync_subscriptions marshal (λ m. true) deadline c in
      (goes_on ≡ true)
      × (d.generation.registry ≡ c.generation.registry)
      × ((i : String)
          → has (lookup i d.generation.subscribed)
            ≡ (subscription_identity_state marshal i c.generation.registry).0)
unfolding sync_subscriptions
sync_subscriptions-present marshal deadline c w =
    let r = c.generation.registry in
    let seen = take_snapshot marshal c in
    let steady = seen-Steady marshal deadline r w c refl in
    let first =
      active_turns-Turned marshal deadline r w (keys_of seen.generation.subscribed) seen steady in
    let middle =
      (turns (active_turn marshal (λ m. true) deadline) (keys_of seen.generation.subscribed)
        seen).1 in
    let second = group_turns-Turned marshal deadline r w (keys_of seen.current) middle first.1 in
    rw first.0 (
      second.0,
      second.1.0,
      λ i.
          ground (
            arith,
            second.2 i,
            first.2 i,
            has-among i seen.generation.subscribed,
            has-among i seen.current,
            steady.1 i,
          )
          ∙ wanted-present marshal deadline r w i,
    )
