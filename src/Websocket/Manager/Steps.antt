-- ===== src/Websocket/Manager/Steps.antt =====
-- websocket/manager.go: every interleaving of one connection, as a step relation: the synchronizer,
-- the answers of the server, and the callers that subscribe and close.
use hypersdk_go.Json.{Json, Fields}
use hypersdk_go.Prelude.{ℕ, true, false, ◌≡◌, Option, some, String, List, []}
use hypersdk_go.Websocket.Wires.{Wire}
use hypersdk_go.Websocket.Registry.{Managed, Registry, register, remove}
use hypersdk_go.Websocket.Manager.{Active, Notice, Generation, Response, acknowledge_subscription}
use hypersdk_go.Websocket.Manager.Errors.{ErrorData, reject_pending_subscriptions}
use hypersdk_go.Websocket.Manager.Sync.{
  idle, subscribing, unsubscribing, joining, Connection, at, with_generation, with_registry,
  take_snapshot, check_active, finish_join, commit_unsubscribe, start_subscribe, commit_subscribe,
  write_admitted, is_writing,
}

-- The text functions of the encoding/json package that the manager calls.
pub record Codec : Type 0 where
  pub marshal : Fields → String
  pub raw : Json → String
  pub decode : String → Option Fields

-- The connection as the dial leaves it.
abbrev pub opened : Registry → Connection
opened r = record {
  generation = record { registry = r; subscribed = []; pending = [] };
  current = [];
  sync = idle;
}

pub data Step (codec : Codec) : Connection → Connection → Type 0 where
  snapshots : (c : Connection) → c.sync ≡ idle → Step codec c (take_snapshot codec.marshal c)
  checks :
      (c : Connection) (identity : String)
      → c.sync ≡ idle
      → Step codec c (check_active identity c).1
  joins :
      (c : Connection) (identity : String) (members : List (String × Managed))
      → c.sync ≡ joining identity members
      → Step codec c (at idle (with_generation (finish_join identity members c.generation) c))
  starts :
      (c : Connection) (identity : String)
      → c.sync ≡ idle
      → Step codec c (start_subscribe identity c).1
  subscribes :
      (c : Connection) (identity : String) (group : Active) (deadline : ℕ)
      → c.sync ≡ subscribing identity group
      → write_admitted codec.marshal identity true group.wire c.generation.registry ≡ true
      → Step codec c
          (at idle (with_generation (commit_subscribe identity group deadline c.generation) c))
  unsubscribes :
      (c : Connection) (identity : String) (wire : Wire) (deadline : ℕ)
      → c.sync ≡ unsubscribing identity wire
      → write_admitted codec.marshal identity false wire c.generation.registry ≡ true
      → Step codec c
          (at idle (with_generation (commit_unsubscribe identity wire deadline c.generation) c))
  skips : (c : Connection) → is_writing c.sync ≡ true → Step codec c (at idle c)
  acknowledges :
      (c : Connection) (response : Option Response) (notices : List Notice) (g : Generation)
      → acknowledge_subscription codec.marshal codec.raw response c.generation ≡ (notices, some g)
      → Step codec c (with_generation g c)
  rejects :
      (c : Connection) (body : String) (error : ErrorData)
      → Step codec c (
          with_generation
            (reject_pending_subscriptions codec.marshal codec.raw codec.decode body error
              c.generation).1
            c)
  registers :
      (c : Connection) (acquired : Option ℕ) (s : Managed)
      → Step codec c (
          with_generation
            (with_registry (register codec.marshal acquired s c.generation.registry).1 c.generation)
            c)
  removes :
      (c : Connection) (key : String) (s : Managed)
      → Step codec c (
          with_generation
            (with_registry (remove codec.marshal key s c.generation.registry).1 c.generation)
            c)

pub data Reaches (codec : Codec) (from : Connection) : Connection → Type 0 where
  here : Reaches codec from from
  next : {c d : Connection} → Reaches codec from c → Step codec c d → Reaches codec from d
