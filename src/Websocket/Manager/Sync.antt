-- ===== src/Websocket/Manager/Sync.antt =====
-- websocket/manager.go: the synchronizer, which brings the subscriptions of a connection in line
-- with the registry, in the steps between which the manager's other goroutines run.
use hypersdk_go.Json.{Fields}
use hypersdk_go.Prelude.Maps.{insert, lookup, delete}
use hypersdk_go.Prelude.{
  ℕ, Bool, true, false, not, ◌&&◌, Option, none, some, String, string_eq, nat_eq, ◌==◌, List, [],
  ◌∷◌, ◌++◌, if◌then◌else◌,
}
use hypersdk_go.Websocket.Wires.{Wire, canonical_wire}
use hypersdk_go.Websocket.Registry.{
  Managed, Registry, identity_of, fingerprint, subscription_identity_state, is_registered,
}
use hypersdk_go.Websocket.Manager.{
  Active, Notice, Generation, connected, subscribed_state, each, state_subscription,
  pending_ack_key,
}

abbrev pub with_member : Managed → Option Active → Active
with_member s none = record { wire = s.wire; members = insert s.key s []; acked = false }
with_member s (some a) = record {
  wire = a.wire;
  members = insert s.key s a.members;
  acked = a.acked;
}

-- The first loop of `syncSubscriptions`: the subscriptions of a snapshot by their identities.
unfoldable pub group_subscriptions :
    (Fields → String) → List (String × Managed) → List (String × Active) → List (String × Active)
group_subscriptions marshal [] current = current
group_subscriptions marshal ((key, s) ∷ more) current =
    let identity = identity_of marshal s in
    group_subscriptions marshal more
      (insert identity (with_member s (lookup identity current)) current)

abbrev pub shared : List (String × Managed) → Bool
shared [] = false
shared (s ∷ []) = false
shared (s ∷ t ∷ more) = true

abbrev pub canonical_group : Active → Active
canonical_group a = record {
  wire = if shared a.members then canonical_wire a.wire else a.wire;
  members = a.members;
  acked = a.acked;
}

-- The second loop: a group of several sends the canonical form.
unfoldable pub canonical_groups : List (String × Active) → List (String × Active)
canonical_groups [] = []
canonical_groups ((identity, a) ∷ more) = (identity, canonical_group a) ∷ canonical_groups more

-- Where the synchronizer stands: between two identities, at a write, or before it replaces the
-- members.
pub data Sync : Type 0 where
  idle : Sync
  subscribing : String → Active → Sync
  unsubscribing : String → Wire → Sync
  joining : String → List (String × Managed) → Sync

-- A connection: its protocol state, the groups of the synchronizer's snapshot and where it stands.
pub record Connection : Type 0 where
  pub generation : Generation
  pub current : List (String × Active)
  pub sync : Sync

abbrev pub at : Sync → Connection → Connection
at sync c = record { generation = c.generation; current = c.current; sync = sync }

abbrev pub with_generation : Generation → Connection → Connection
with_generation g c = record { generation = g; current = c.current; sync = c.sync }

abbrev pub with_registry : Registry → Generation → Generation
with_registry r g = record { registry = r; subscribed = g.subscribed; pending = g.pending }

unfoldable pub take_snapshot : (Fields → String) → Connection → Connection
take_snapshot marshal c = record {
  generation = c.generation;
  current = canonical_groups (group_subscriptions marshal c.generation.registry.subs []);
  sync = idle;
}

-- Whether the member that the active group has under a key is the subscription.
abbrev pub newcomers : List (String × Managed) → List (String × Managed) → List (String × Managed)
newcomers members [] = []
newcomers members ((key, s) ∷ more) =
    let rest = newcomers members more in
    if is_registered s.pointer (lookup key members) then rest else (key, s) ∷ rest

abbrev pub welcome : Bool → Managed → List Notice
welcome acked s =
    state_subscription connected s ++ (if acked then state_subscription subscribed_state s else [])

abbrev pub unsubscribe_wire : Wire → Wire
unsubscribe_wire w = record { method = "unsubscribe"; subscription = w.subscription }

abbrev check_group : String → Active → Option Active → Connection → List Notice × Connection
check_group identity active (some group) c = (
  each (welcome active.acked) (newcomers active.members group.members),
  at (joining identity group.members) c,
)
check_group identity active none c =
    ([], at (unsubscribing identity (unsubscribe_wire active.wire)) c)

abbrev check_found : String → Option Active → Connection → List Notice × Connection
check_found identity none c = ([], c)
check_found identity (some active) c = check_group identity active (lookup identity c.current) c

-- The loop over the active identities, up to the write or to the new members.
unfoldable pub check_active : String → Connection → List Notice × Connection
check_active identity c = check_found identity (lookup identity c.generation.subscribed) c

abbrev pub joined_group : List (String × Managed) → Active → Active
joined_group members a = record { wire = a.wire; members = members; acked = a.acked }

abbrev replace_members : String → List (String × Managed) → Option Active → Generation → Generation
replace_members identity members none g = g
replace_members identity members (some a) g = record {
  registry = g.registry;
  subscribed = insert identity (joined_group members a) g.subscribed;
  pending = g.pending;
}

-- The new members, where the group is still there: nobody else adds groups, so it is the same one.
unfoldable pub finish_join : String → List (String × Managed) → Generation → Generation
finish_join identity members g = replace_members identity members (lookup identity g.subscribed) g

-- What the write of an unsubscription publishes.
unfoldable pub commit_unsubscribe : String → Wire → ℕ → Generation → Generation
commit_unsubscribe identity wire deadline g = record {
  registry = g.registry;
  subscribed = delete identity g.subscribed;
  pending =
      insert (pending_ack_key "unsubscribe" identity)
        (record { method = "unsubscribe"; identity = identity; wire = wire; deadline = deadline })
        (delete (pending_ack_key "subscribe" identity) g.pending);
}

abbrev start_group : String → Option Active → Option Active → Connection → List Notice × Connection
start_group identity none found c = ([], c)
start_group identity (some group) (some active) c = ([], c)
start_group identity (some group) none c =
    (each (state_subscription connected) group.members, at (subscribing identity group) c)

-- The loop over the groups, up to the write.
unfoldable pub start_subscribe : String → Connection → List Notice × Connection
start_subscribe identity c =
    start_group identity (lookup identity c.current) (lookup identity c.generation.subscribed) c

-- What the write of a subscription publishes.
unfoldable pub commit_subscribe : String → Active → ℕ → Generation → Generation
commit_subscribe identity group deadline g = record {
  registry = g.registry;
  subscribed = insert identity group g.subscribed;
  pending =
      insert (pending_ack_key "subscribe" identity)
        (record {
          method = "subscribe";
          identity = identity;
          wire = group.wire;
          deadline = deadline;
        })
        g.pending;
}

abbrev pub same_presence : Bool → String → Bool × String → Bool
same_presence true print (present, now) = present && (now == print)
same_presence false print (present, now) = not present

-- The check of `writeJSON` before the socket is written, under the lock of the registry.
unfoldable pub write_admitted : (Fields → String) → String → Bool → Wire → Registry → Bool
write_admitted marshal identity want_present wire r =
    same_presence want_present (fingerprint marshal wire)
      (subscription_identity_state marshal identity r)

abbrev pub is_writing : Sync → Bool
is_writing (subscribing identity group) = true
is_writing (unsubscribing identity wire) = true
is_writing _ = false
