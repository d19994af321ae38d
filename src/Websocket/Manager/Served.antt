-- ===== src/Websocket/Manager/Served.antt =====
-- websocket/manager.go: what the answers of the server keep of a connection's state.
use hypersdk_go.Json.{Fields}
use hypersdk_go.Prelude.Maps.{insert, lookup, delete, lookup-insert, lookup-delete}
use hypersdk_go.Prelude.{
  ◌≡◌, refl, ap, ◌∙◌, true, false, Option, none, some, String, string_eq, ◌==◌, List, All, arith,
  Bool-cases, inl, inr,
}
use hypersdk_go.Websocket.Manager.{
  Active, Pending, Generation, pending_ack_key, reject_wire_subscription, mark_acked,
  without_pending, acked_group, settle_acknowledgement,
}
use hypersdk_go.Websocket.Manager.Errors.{reject_pending_acknowledgement}
use hypersdk_go.Websocket.Manager.Tracked.{
  Tracks, TracksBut, Keyed, TracksBut-delete, Tracks-but, Tracks-acknowledge, Tracks-absent,
  Tracks-delete_waiting, Tracks-delete_other, All-delete,
}

abbrev pub IsTracked : Generation → Type 0
IsTracked g = Tracks g.subscribed g.pending × All Keyed g.pending

-- No identity becomes active.
abbrev pub Shrinks : Generation → Generation → Type 0
Shrinks g h = (i : String) → lookup i g.subscribed ≡ none → lookup i h.subscribed ≡ none

abbrev pub Keeps : Generation → Generation → Type 0
Keeps g h = IsTracked h × Shrinks g h

absent-delete :
    (i j : String) (m : List (String × Active)) → lookup j m ≡ none → lookup j (delete i m) ≡ none
absent-delete i j m h = ground (arith, lookup-delete i j m)

absent-insert :
    (i j : String) (a b : Active) (m : List (String × Active))
    → lookup i m ≡ some b
    → lookup j m ≡ none
    → lookup j (insert i a m) ≡ none
absent-insert i j a b m found h = ground (arith, lookup-insert i j a m, string_eq.equals_iff i j)

pub reject_wire_subscription-Keeps :
    (marshal : Fields → String) (error i : String) (g : Generation)
    → TracksBut i g.subscribed g.pending
    → All Keyed g.pending
    → Keeps g (reject_wire_subscription marshal error i g).1
unfolding reject_wire_subscription
reject_wire_subscription-Keeps marshal error i g t a = (
  (
    TracksBut-delete g.subscribed g.pending i t,
    All-delete Keyed (pending_ack_key "subscribe" i) g.pending a,
  ),
  λ j h. absent-delete i j g.subscribed h,
)

-- An entry of a subscription has the key of one.
subscribe_key :
    (key : String) (p : Pending)
    → Keyed (key, p)
    → (p.method == "subscribe") ≡ true
    → key ≡ pending_ack_key "subscribe" p.identity
subscribe_key key p k h =
    k.0 ∙ ap (λ m. pending_ack_key m p.identity) ((string_eq.equals_iff p.method "subscribe").0 h)

unsubscribe_key :
    (key : String) (p : Pending)
    → Keyed (key, p)
    → (p.method == "subscribe") ≡ false
    → key ≡ pending_ack_key "unsubscribe" p.identity
unsubscribe_key key p k h =
    k.0
    ∙ ap (λ m. pending_ack_key m p.identity)
        ((string_eq.equals_iff p.method "unsubscribe").0 (ground (arith, k.1, h)))

module _ (g : Generation) (key : String) (p : Pending) (k : Keyed (key, p)) (t : IsTracked g) where
  without-Keyed : All Keyed (delete key g.pending)
  without-Keyed = All-delete Keyed key g.pending t.1

  without_waiting :
      (p.method == "subscribe") ≡ true → TracksBut p.identity g.subscribed (delete key g.pending)
  without_waiting h =
      rw (subscribe_key key p k h) (Tracks-delete_waiting g.subscribed g.pending t.0 p.identity)

  without_other : (p.method == "subscribe") ≡ false → Tracks g.subscribed (delete key g.pending)
  without_other h =
      rw (unsubscribe_key key p k h) (Tracks-delete_other g.subscribed g.pending t.0 p.identity)

  without_either : TracksBut p.identity g.subscribed (delete key g.pending)
  without_either = elim (Bool-cases (p.method == "subscribe")) [
    | inl h ↦ without_waiting h
    | inr h ↦ Tracks-but g.subscribed (delete key g.pending) (without_other h) p.identity
  ]

  pub reject_pending_acknowledgement-Keeps :
      (marshal : Fields → String) (error : String)
      → Keeps g (reject_pending_acknowledgement marshal error key p g).1
  unfolding reject_pending_acknowledgement
  reject_pending_acknowledgement-Keeps marshal error = elim (Bool-cases (p.method == "subscribe")) [
    | inl h ↦ rw h (
        reject_wire_subscription-Keeps marshal error p.identity (without_pending key g)
          without_either without-Keyed)
    | inr h ↦ rw h ((without_other h, without-Keyed), λ j absent. absent)
  ]

  mark_acked-Keeps :
      (p.method == "subscribe") ≡ true
      → (found : Option Active) → lookup p.identity g.subscribed ≡ found
      → Keeps g (mark_acked p.identity found (without_pending key g)).1
  mark_acked-Keeps h none absent = (
    (
      rw (subscribe_key key p k h) (Tracks-absent g.subscribed g.pending t.0 p.identity absent),
      without-Keyed,
    ),
    λ j h. h,
  )
  mark_acked-Keeps h (some a) found = (
    (
      rw (subscribe_key key p k h)
          (Tracks-acknowledge g.subscribed g.pending t.0 p.identity (acked_group a) refl),
      without-Keyed,
    ),
    λ j absent. absent-insert p.identity j (acked_group a) a g.subscribed found absent,
  )

  pub settle_acknowledgement-Keeps :
      (marshal : Fields → String) (error : Option String)
      → Keeps g (settle_acknowledgement marshal p error (without_pending key g)).1
  settle_acknowledgement-Keeps marshal (some error) =
      reject_wire_subscription-Keeps marshal error p.identity (without_pending key g) without_either
        without-Keyed
  settle_acknowledgement-Keeps marshal none = elim (Bool-cases (p.method == "subscribe")) [
    | inl h ↦ rw h (mark_acked-Keeps h (lookup p.identity g.subscribed) refl)
    | inr h ↦ rw h ((without_other h, without-Keyed), λ j absent. absent)
  ]
