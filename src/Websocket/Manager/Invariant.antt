-- ===== src/Websocket/Manager/Invariant.antt =====
-- websocket/manager.go: what holds of a connection after any interleaving of its steps.
use hypersdk_go.Json.{Fields}
use hypersdk_go.Prelude.Maps.{insert, lookup, delete}
use hypersdk_go.Prelude.{
  ℕ, ◌≡◌, refl, ap, sym, ◌∙◌, subst, Bool, false, Option, none, some, String, string_eq, ◌==◌, List,
  [], ◌∷◌, All, Bool-cases, Option-cases, inl, inr,
}
use hypersdk_go.Websocket.Wires.{Wire}
use hypersdk_go.Websocket.Registry.{Managed, Registry, identity_of}
use hypersdk_go.Websocket.Manager.{Active, Pending, Generation, pending_ack_key}
use hypersdk_go.Websocket.Manager.Tracked.{
  Keyed, Tracks-but, TracksBut-delete, Tracks-subscribe, Tracks-replace, Tracks-insert_other,
  All-delete, Keyed-insert,
}
use hypersdk_go.Websocket.Manager.Errors.{ErrorData, reject_pending_subscriptions}
use hypersdk_go.Websocket.Manager.Served.{IsTracked, Shrinks, Keeps}
use hypersdk_go.Websocket.Manager.Answered.{
  acknowledge_subscription-Keeps, reject_pending_subscriptions-Keeps,
}
use hypersdk_go.Websocket.Manager.Sync.{
  Sync, idle, subscribing, unsubscribing, joining, Connection, with_generation, with_member,
  group_subscriptions, canonical_groups, take_snapshot, check_active, finish_join,
  commit_unsubscribe, start_subscribe, commit_subscribe,
}
use hypersdk_go.Websocket.Manager.Steps.{
  Codec, opened, Step, snapshots, checks, joins, starts, subscribes, unsubscribes, skips,
  acknowledges, rejects, registers, removes, Reaches, here, next,
}

-- A group of a snapshot is not acknowledged.
abbrev Fresh : String × Active → Type 0
Fresh e = e.1.acked ≡ false

-- A subscription that is about to be written is not active.
abbrev SyncFits : Sync → List (String × Active) → Type 0
SyncFits (subscribing identity group) subscribed =
    (lookup identity subscribed ≡ none) × (group.acked ≡ false)
SyncFits _ subscribed = Unit

abbrev pub IsConsistent : Connection → Type 0
IsConsistent c =
    All Fresh c.current × SyncFits c.sync c.generation.subscribed × IsTracked c.generation

abbrev acked_or : Active → Option Active → Bool
acked_or a none = a.acked
acked_or a (some b) = b.acked

found-Fresh :
    (i : String) (m : List (String × Active)) (a : Active)
    → All Fresh m
    → lookup i m ≡ some a
    → a.acked ≡ false
unfolding lookup
found-Fresh i [] a f h = cc
found-Fresh i ((j, b) ∷ m) a f h = elim (Bool-cases (j == i)) [
  | inl same ↦ let found : some b ≡ some a = rw same at h in sym (ap (acked_or b) found) ∙ f.0
  | inr other ↦ found-Fresh i m a f.1 (rw other at h)
]

Fresh-insert :
    (i : String) (a : Active) (m : List (String × Active))
    → a.acked ≡ false
    → All Fresh m
    → All Fresh (insert i a m)
unfolding insert
Fresh-insert i a [] h f = (h, tt)
Fresh-insert i a ((j, b) ∷ m) h f = elim (Bool-cases (j == i)) [
  | inl same ↦ rw same (h, f.1)
  | inr other ↦ rw other (f.0, Fresh-insert i a m h f.1)
]

with_member-Fresh :
    (s : Managed) (i : String) (m : List (String × Active)) (found : Option Active)
    → lookup i m ≡ found
    → All Fresh m
    → (with_member s found).acked ≡ false
with_member-Fresh s i m none h f = refl
with_member-Fresh s i m (some a) h f = found-Fresh i m a f h

group_subscriptions-Fresh :
    (marshal : Fields → String) (subs : List (String × Managed)) (current : List (String × Active))
    → All Fresh current
    → All Fresh (group_subscriptions marshal subs current)
unfolding group_subscriptions
group_subscriptions-Fresh marshal [] current f = f
group_subscriptions-Fresh marshal ((key, s) ∷ more) current f =
    let i = identity_of marshal s in
    let group = with_member s (lookup i current) in
    group_subscriptions-Fresh marshal more (insert i group current)
      (Fresh-insert i group current (with_member-Fresh s i current (lookup i current) refl f) f)

canonical_groups-Fresh : (m : List (String × Active)) → All Fresh m → All Fresh (canonical_groups m)
unfolding canonical_groups
canonical_groups-Fresh [] f = tt
canonical_groups-Fresh ((i, a) ∷ m) f = (f.0, canonical_groups-Fresh m f.1)

Shrinks-SyncFits :
    (sync : Sync) (g h : Generation)
    → Shrinks g h
    → SyncFits sync g.subscribed
    → SyncFits sync h.subscribed
Shrinks-SyncFits idle g h s f = tt
Shrinks-SyncFits (subscribing i group) g h s f = (s i f.0, f.1)
Shrinks-SyncFits (unsubscribing i wire) g h s f = tt
Shrinks-SyncFits (joining i members) g h s f = tt

served-IsConsistent :
    (c : Connection) (h : Generation)
    → IsConsistent c
    → Keeps c.generation h
    → IsConsistent (with_generation h c)
served-IsConsistent c h k s = (k.0, Shrinks-SyncFits c.sync c.generation h s.1 k.1, s.0)

commit_subscribe-IsTracked :
    (i : String) (group : Active) (deadline : ℕ) (g : Generation)
    → group.acked ≡ false
    → IsTracked g
    → IsTracked (commit_subscribe i group deadline g)
unfolding commit_subscribe
commit_subscribe-IsTracked i group deadline g fresh t =
    let entry : Pending = record {
      method = "subscribe";
      identity = i;
      wire = group.wire;
      deadline = deadline;
    } in
    (
      Tracks-subscribe g.subscribed g.pending t.0 i group entry fresh,
      Keyed-insert (pending_ack_key "subscribe" i) entry g.pending (refl, refl) t.1,
    )

commit_unsubscribe-IsTracked :
    (i : String) (wire : Wire) (deadline : ℕ) (g : Generation)
    → IsTracked g
    → IsTracked (commit_unsubscribe i wire deadline g)
unfolding commit_unsubscribe
commit_unsubscribe-IsTracked i wire deadline g t =
    let entry : Pending = record {
      method = "unsubscribe";
      identity = i;
      wire = wire;
      deadline = deadline;
    } in
    let key = pending_ack_key "subscribe" i in
    (
      Tracks-insert_other (delete i g.subscribed) (delete key g.pending)
          (TracksBut-delete g.subscribed g.pending i (Tracks-but g.subscribed g.pending t.0 i)) i
          entry,
      Keyed-insert (pending_ack_key "unsubscribe" i) entry (delete key g.pending) (refl, refl)
          (All-delete Keyed key g.pending t.1),
    )

finish_join-IsTracked :
    (i : String) (members : List (String × Managed)) (g : Generation)
    → IsTracked g
    → IsTracked (finish_join i members g)
unfolding finish_join
finish_join-IsTracked i members g t = elim (Option-cases (lookup i g.subscribed)) [
  | inl absent ↦ rw absent t
  | inr (a, found) ↦ rw found (Tracks-replace g.subscribed g.pending t.0 i a _ found refl, t.1)
]

check_active-IsConsistent :
    (c : Connection) (i : String)
    → c.sync ≡ idle
    → IsConsistent c
    → IsConsistent (check_active i c).1
unfolding check_active
check_active-IsConsistent c i quiet s = elim (Option-cases (lookup i c.generation.subscribed)) [
  | inl absent ↦ simp absent s
  | inr (a, found) ↦ elim (Option-cases (lookup i c.current)) [
    | inl gone ↦ simp (found, gone) (s.0, tt, s.2)
    | inr (group, there) ↦ simp (found, there) (s.0, tt, s.2)
  ]
]

start_subscribe-IsConsistent :
    (c : Connection) (i : String)
    → c.sync ≡ idle
    → IsConsistent c
    → IsConsistent (start_subscribe i c).1
unfolding start_subscribe
start_subscribe-IsConsistent c i quiet s = elim (Option-cases (lookup i c.current)) [
  | inl gone ↦ simp gone s
  | inr (group, there) ↦ elim (Option-cases (lookup i c.generation.subscribed)) [
    | inl absent ↦ simp (there, absent) (s.0, (refl, found-Fresh i c.current group s.0 there), s.2)
    | inr (a, found) ↦ simp (there, found) s
  ]
]

rejects-IsConsistent :
    (codec : Codec) (c : Connection) (body : String) (error : ErrorData)
    → IsConsistent c
    → IsConsistent (
        with_generation
          (reject_pending_subscriptions codec.marshal codec.raw codec.decode body error
            c.generation).1
          c)
rejects-IsConsistent codec c body error s =
    let answer =
      reject_pending_subscriptions codec.marshal codec.raw codec.decode body error c.generation in
    served-IsConsistent c answer.1 s (
      reject_pending_subscriptions-Keeps codec.marshal codec.raw codec.decode body error
        c.generation s.2)

Step-IsConsistent :
    (codec : Codec) {c d : Connection} → Step codec c d → IsConsistent c → IsConsistent d
unfolding take_snapshot
Step-IsConsistent codec (snapshots c quiet) s = (
  canonical_groups-Fresh _
      (group_subscriptions-Fresh codec.marshal c.generation.registry.subs [] tt),
  tt,
  s.2,
)
Step-IsConsistent codec (checks c i quiet) s = check_active-IsConsistent c i quiet s
Step-IsConsistent codec (joins c i members at_join) s =
    (s.0, tt, finish_join-IsTracked i members c.generation s.2)
Step-IsConsistent codec (starts c i quiet) s = start_subscribe-IsConsistent c i quiet s
Step-IsConsistent codec (subscribes c i group deadline at_write admitted) s =
    let fits : SyncFits (subscribing i group) c.generation.subscribed =
      subst (λ x. SyncFits x c.generation.subscribed) at_write s.1 in
    (s.0, tt, commit_subscribe-IsTracked i group deadline c.generation fits.1 s.2)
Step-IsConsistent codec (unsubscribes c i wire deadline at_write admitted) s =
    (s.0, tt, commit_unsubscribe-IsTracked i wire deadline c.generation s.2)
Step-IsConsistent codec (skips c writing) s = (s.0, tt, s.2)
Step-IsConsistent codec (acknowledges c response notices g e) s = served-IsConsistent c g s (
    acknowledge_subscription-Keeps codec.marshal codec.raw response c.generation g (ap (λ x. x.1) e)
      s.2)
Step-IsConsistent codec (rejects c body error) s = rejects-IsConsistent codec c body error s
Step-IsConsistent codec (registers c acquired m) s = s
Step-IsConsistent codec (removes c key m) s = s

-- After any interleaving of the synchronizer, the answers of the server and the callers, a
-- subscription is pending exactly while its identity is active and not acknowledged, every pending
-- entry stands under the key of its method and identity, and a subscription that is about to be
-- written is not active yet.
pub Reaches-IsConsistent :
    (codec : Codec) (r : Registry) {c : Connection} → Reaches codec (opened r) c → IsConsistent c
unfolding lookup
Reaches-IsConsistent codec r here = (tt, tt, (λ i. refl, tt))
Reaches-IsConsistent codec r (next before step) =
    Step-IsConsistent codec step (Reaches-IsConsistent codec r before)
