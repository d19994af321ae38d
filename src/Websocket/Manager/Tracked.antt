-- ===== src/Websocket/Manager/Tracked.antt =====
-- websocket/manager.go: `subscribed` and `pending` as two maps, and what the writes to them keep.
use hypersdk_go.Prelude.Maps.{insert, lookup, delete, lookup-insert, lookup-delete}
use hypersdk_go.Prelude.{
  ◌≡◌, ap, Bool, true, false, not, ◌||◌, Option, none, some, String, string_eq, ◌==◌, List, [], ◌∷◌,
  All, arith, Bool-cases, inl, inr,
}
use hypersdk_go.Websocket.Manager.{Active, Pending, pending_ack_key}
use hypersdk_go.Websocket.Manager.Keys.{pending_ack_key-injective, subscribe_key-unsubscribe_key}

abbrev pub has {ℓ} : {A : Type ℓ} → Option A → Bool
has none = false
has (some a) = true

-- A subscription that was sent waits until it is acknowledged.
abbrev pub waits : Option Active → Bool
waits none = false
waits (some a) = not a.acked

abbrev pub Tracks : List (String × Active) → List (String × Pending) → Type 0
Tracks subscribed pending =
    (i : String)
    → has (lookup (pending_ack_key "subscribe" i) pending) ≡ waits (lookup i subscribed)

-- The same, but for one identity.
abbrev pub TracksBut : String → List (String × Active) → List (String × Pending) → Type 0
TracksBut i subscribed pending =
    (j : String)
    → (i == j) ≡ false
    → has (lookup (pending_ack_key "subscribe" j) pending) ≡ waits (lookup j subscribed)

-- An entry stands under its own key, and is of one of the two methods.
abbrev pub Keyed : String × Pending → Type 0
Keyed e =
    (e.0 ≡ pending_ack_key e.1.method e.1.identity)
    × ((e.1.method == "subscribe" || e.1.method == "unsubscribe") ≡ true)

keys_alike :
    (i j : String) → (pending_ack_key "subscribe" i == pending_ack_key "subscribe" j) ≡ (i == j)
keys_alike i j = ground (
  arith,
  ap (pending_ack_key "subscribe"),
  string_eq.equals_iff i j,
  string_eq.equals_iff (pending_ack_key "subscribe" i) (pending_ack_key "subscribe" j),
  pending_ack_key-injective "subscribe" i j,
)

keys_apart :
    (i j : String) → (pending_ack_key "unsubscribe" i == pending_ack_key "subscribe" j) ≡ false
keys_apart i j = ground (
  arith,
  string_eq.equals_iff (pending_ack_key "unsubscribe" i) (pending_ack_key "subscribe" j),
  subscribe_key-unsubscribe_key i j,
)

pub TracksBut-delete :
    (subscribed : List (String × Active)) (pending : List (String × Pending)) (i : String)
    → TracksBut i subscribed pending
    → Tracks (delete i subscribed) (delete (pending_ack_key "subscribe" i) pending)
TracksBut-delete subscribed pending i t j = ground (
  arith,
  lookup-delete i j subscribed,
  lookup-delete (pending_ack_key "subscribe" i) (pending_ack_key "subscribe" j) pending,
  keys_alike i j,
  t j,
)

module _ (subscribed : List (String × Active)) (pending : List (String × Pending))
    (t : Tracks subscribed pending) (i : String) where
  pub Tracks-but : TracksBut i subscribed pending
  Tracks-but j other = t j

  pub Tracks-subscribe :
      (a : Active) (p : Pending)
      → a.acked ≡ false
      → Tracks (insert i a subscribed) (insert (pending_ack_key "subscribe" i) p pending)
  Tracks-subscribe a p h j = ground (
    arith,
    lookup-insert i j a subscribed,
    lookup-insert (pending_ack_key "subscribe" i) (pending_ack_key "subscribe" j) p pending,
    keys_alike i j,
    t j,
  )

  pub Tracks-acknowledge :
      (a : Active)
      → a.acked ≡ true
      → Tracks (insert i a subscribed) (delete (pending_ack_key "subscribe" i) pending)
  Tracks-acknowledge a h j = ground (
    arith,
    lookup-insert i j a subscribed,
    lookup-delete (pending_ack_key "subscribe" i) (pending_ack_key "subscribe" j) pending,
    keys_alike i j,
    t j,
  )

  pub Tracks-absent :
      lookup i subscribed ≡ none
      → Tracks subscribed (delete (pending_ack_key "subscribe" i) pending)
  Tracks-absent h j = ground (
    arith,
    lookup-delete (pending_ack_key "subscribe" i) (pending_ack_key "subscribe" j) pending,
    keys_alike i j,
    string_eq.equals_iff i j,
    t j,
  )

  pub Tracks-replace :
      (a b : Active)
      → lookup i subscribed ≡ some a
      → b.acked ≡ a.acked
      → Tracks (insert i b subscribed) pending
  Tracks-replace a b found same j =
      ground (arith, lookup-insert i j b subscribed, string_eq.equals_iff i j, t j)

  pub Tracks-delete_waiting :
      TracksBut i subscribed (delete (pending_ack_key "subscribe" i) pending)
  Tracks-delete_waiting j other = ground (
    arith,
    lookup-delete (pending_ack_key "subscribe" i) (pending_ack_key "subscribe" j) pending,
    keys_alike i j,
    t j,
  )

  pub Tracks-delete_other : Tracks subscribed (delete (pending_ack_key "unsubscribe" i) pending)
  Tracks-delete_other j = ground (
    arith,
    lookup-delete (pending_ack_key "unsubscribe" i) (pending_ack_key "subscribe" j) pending,
    keys_apart i j,
    t j,
  )

  pub Tracks-insert_other :
      (p : Pending) → Tracks subscribed (insert (pending_ack_key "unsubscribe" i) p pending)
  Tracks-insert_other p j = ground (
    arith,
    lookup-insert (pending_ack_key "unsubscribe" i) (pending_ack_key "subscribe" j) p pending,
    keys_apart i j,
    t j,
  )

pub All-delete :
    (P : String × Pending → Type 0) (k : String) (m : List (String × Pending))
    → All P m
    → All P (delete k m)
unfolding delete
All-delete P k [] h = tt
All-delete P k ((j, w) ∷ m) h = ground (arith, All-delete P k m h.1)

pub Keyed-insert :
    (k : String) (p : Pending) (m : List (String × Pending))
    → Keyed (k, p)
    → All Keyed m
    → All Keyed (insert k p m)
unfolding insert
Keyed-insert k p [] h a = (h, tt)
Keyed-insert k p ((j, w) ∷ m) h a = elim (Bool-cases (j == k)) [
  | inl same ↦ rw same ((rw ((string_eq.equals_iff j k).0 same) h), a.1)
  | inr other ↦ rw other (a.0, Keyed-insert k p m h a.1)
]
