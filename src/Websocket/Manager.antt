-- ===== src/Websocket/Manager.antt =====
-- websocket/manager.go: what one connection keeps of its subscriptions, `subscribed` and `pending`,
-- and how the answers of the server change it. `marshal` and `raw` are the JSON text of a
-- subscription and of a value.
pub mod Errors
pub mod Sync
pub mod Steps
pub mod Keys
pub mod Tracked
pub mod Served
pub mod Answered
pub mod Matches
pub mod Invariant
pub mod Groups
pub mod Rounds
pub mod Converges
pub mod Reconnects
mod Examples
use Prim.Native.String.{◌++◌ as ◌++ₛ◌}
use hypersdk_go.Json.{Json, Fields, null, text}
use hypersdk_go.Prelude.Maps.{insert, lookup, delete}
use hypersdk_go.Prelude.{
  ℕ, Bool, true, false, not, Option, none, some, String, string_eq, ◌==◌, List, [], ◌∷◌, ◌++◌, map,
  ltb, leb, if◌then◌else◌,
}
use hypersdk_go.Websocket.Wires.{Wire, match_score}
use hypersdk_go.Websocket.Registry.{
  Managed, Registry, subscriptions_for, detach_subscription_identity,
}

-- `activeWireSubscription`
pub record Active : Type 0 where
  pub wire : Wire
  pub members : List (String × Managed)
  pub acked : Bool

-- `pendingSubscriptionAck`
pub record Pending : Type 0 where
  pub method : String
  pub identity : String
  pub wire : Wire
  pub deadline : ℕ

pub data SubscriptionState : Type 0 where
  connecting connected reconnecting subscribed_state unsubscribed errored : SubscriptionState

-- What a subscription is told, and the leases that are given back.
pub data Notice : Type 0 where
  state_change : Managed → SubscriptionState → Notice
  terminate : Managed → String → Notice
  report : Managed → String → Notice
  release : ℕ → Notice

pub record Generation : Type 0 where
  pub registry : Registry
  pub subscribed : List (String × Active)
  pub pending : List (String × Pending)

-- `pendingAckKey`
unfoldable pub pending_ack_key : String → String → String
pending_ack_key method identity = method ++ₛ (":" ++ₛ identity)

-- `stateSubscription`
unfoldable pub state_subscription : SubscriptionState → Managed → List Notice
state_subscription state s = if s.is_done then [] else state_change s state ∷ []

-- `reportSubscription`: the error, and then the state.
unfoldable pub report_subscription : String → Managed → List Notice
report_subscription error s = if s.is_done then [] else report s error ∷ state_change s errored ∷ []

abbrev pub each : (Managed → List Notice) → List (String × Managed) → List Notice
each tell [] = []
each tell ((key, s) ∷ more) = tell s ++ each tell more

abbrev pub terminate_each : String → List (String × Managed) → List Notice
terminate_each error = each (λ s. terminate s error ∷ [])

abbrev pub released : Option ℕ → List Notice
released none = []
released (some lease) = release lease ∷ []

-- The members of the active group whose keys were not detached.
unfoldable pub undetached :
    List (String × Managed) → List (String × Managed) → List (String × Managed)
undetached detached [] = []
undetached detached ((key, s) ∷ more) =
    let rest = undetached detached more in
    elim (lookup key detached) [ some found ↦ rest | none ↦ (key, s) ∷ rest ]

abbrev pub members_of : Option Active → List (String × Managed)
members_of none = []
members_of (some active) = active.members

-- `rejectWireSubscription`
unfoldable pub reject_wire_subscription :
    (Fields → String) → String → String → Generation → List Notice × Generation
reject_wire_subscription marshal error identity g =
    let detached = detach_subscription_identity marshal identity g.registry in
    let active = lookup identity g.subscribed in
    (
      released detached.1
          ++ terminate_each error (detached.0 ++ undetached detached.0 (members_of active)),
      record {
        registry = detached.2;
        subscribed = delete identity g.subscribed;
        pending = delete (pending_ack_key "subscribe" identity) g.pending;
      },
    )

-- The better of the entry at hand and the best so far, which has its score.
abbrev pub better :
    ℕ → String → Pending → Option (ℕ × String × Pending) → Option (ℕ × String × Pending)
better score key request none = some (score, key, request)
better score key request (some best) =
    if ltb best.0 score then some (score, key, request) else some best

-- The score of an entry that answers to the method.
unfoldable pub entry_score : String → Fields → Pending → Option ℕ
entry_score method subscription request =
    if request.method == method then match_score request.wire.subscription subscription else none

abbrev pub consider :
    String → Pending → Option ℕ → Option (ℕ × String × Pending) → Option (ℕ × String × Pending)
consider key request none best = best
consider key request (some score) best = better score key request best

unfoldable pub best_match :
    String
    → Fields
    → List (String × Pending)
    → Option (ℕ × String × Pending)
    → Option (ℕ × String × Pending)
best_match method subscription [] best = best
best_match method subscription ((key, request) ∷ more) best =
    best_match method subscription more
      (consider key request (entry_score method subscription request) best)

abbrev pub entry_of : Option (ℕ × String × Pending) → Option (String × Pending)
entry_of none = none
entry_of (some (score, key, request)) = some (key, request)

-- `matchingPendingAcknowledgement`
unfoldable pub matching_pending_acknowledgement :
    String → Fields → List (String × Pending) → Option (String × Pending)
matching_pending_acknowledgement method subscription pending =
    entry_of (best_match method subscription pending none)

-- A `subscriptionResponse` once it is decoded.
pub record Response : Type 0 where
  pub method : String
  pub subscription : Option Fields
  pub error : Option Json

-- The message of an error: its text, or the value as it stands.
abbrev pub error_message : (Json → String) → Json → String
error_message raw (text message) = message
error_message raw j = raw j

-- `ErrSubscriptionRejected`, with a message.
abbrev pub rejected : String → String
rejected message = "websocket subscription rejected: " ++ₛ message

-- An error that is there and not null.
abbrev pub refusal : (Json → String) → Option Json → Option String
refusal raw none = none
refusal raw (some null) = none
refusal raw (some j) = some (rejected (error_message raw j))

abbrev pub acked_group : Active → Active
acked_group a = record { wire = a.wire; members = a.members; acked = true }

abbrev pub mark_acked : String → Option Active → Generation → List Notice × Generation
mark_acked identity none g = ([], g)
mark_acked identity (some active) g = (
  each (state_subscription subscribed_state) active.members,
  record {
    registry = g.registry;
    subscribed = insert identity (acked_group active) g.subscribed;
    pending = g.pending;
  },
)

abbrev pub without_pending : String → Generation → Generation
without_pending key g = record {
  registry = g.registry;
  subscribed = g.subscribed;
  pending = delete key g.pending;
}

-- What follows the deletion of the entry, by the error of the response.
abbrev pub settle_acknowledgement :
    (Fields → String) → Pending → Option String → Generation → List Notice × Generation
settle_acknowledgement marshal request (some error) g =
    reject_wire_subscription marshal error request.identity g
settle_acknowledgement marshal request none g =
    if request.method == "subscribe"
    then mark_acked request.identity (lookup request.identity g.subscribed) g
    else ([], g)

abbrev pub settle_match :
    (Fields → String)
    → Option String
    → Option (String × Pending)
    → Generation
    → List Notice × Generation
settle_match marshal error none g = ([], g)
settle_match marshal error (some (key, request)) g =
    settle_acknowledgement marshal request error (without_pending key g)

-- `reportAll`
unfoldable pub report_all : String → List (String × Managed) → List Notice
report_all error = each (λ s. report s error ∷ state_change s errored ∷ [])

abbrev pub malformed : Generation → List Notice × Option Generation
malformed g = (report_all (rejected "malformed subscriptionResponse") g.registry.subs, none)

abbrev pub go_on : List Notice × Generation → List Notice × Option Generation
go_on (notices, g) = (notices, some g)

abbrev pub answer_subscription :
    (Fields → String)
    → (Json → String)
    → Response
    → Option Fields
    → Generation
    → List Notice × Option Generation
answer_subscription marshal raw response none g = malformed g
answer_subscription marshal raw response (some subscription) g =
    let found = matching_pending_acknowledgement response.method subscription g.pending in
    go_on (settle_match marshal (refusal raw response.error) found g)

-- `acknowledgeSubscription`, on what decodes. A malformed response ends the connection.
unfoldable pub acknowledge_subscription :
    (Fields → String)
    → (Json → String)
    → Option Response
    → Generation
    → List Notice × Option Generation
acknowledge_subscription marshal raw none g = malformed g
acknowledge_subscription marshal raw (some response) g =
    if response.method == ""
    then malformed g
    else answer_subscription marshal raw response response.subscription g
