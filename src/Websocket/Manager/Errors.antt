-- ===== src/Websocket/Manager/Errors.antt =====
-- websocket/manager.go: errors that the server sends while acknowledgements are pending, and
-- deadlines that pass. `decode` is what a JSON decoder reads at the start of a text, as an object.
use Prim.Native.Char.{code}
use hypersdk_go.Json.{Json, Fields, null, text, get_field, as_text, as_object}
use hypersdk_go.Prelude.Maps.{insert}
use hypersdk_go.Prelude.{
  ℕ, Bool, true, Option, none, some, String, string_eq, nat_eq, ◌==◌, List, [], ◌∷◌, ◌++◌, ltb,
  if◌then◌else◌,
}
use hypersdk_go.Websocket.Wires.{match_score}
use hypersdk_go.Websocket.Registry.{Managed, subscriptions_for}
use hypersdk_go.Websocket.Manager.{
  Pending, Notice, Generation, each, report_subscription, reject_wire_subscription,
  matching_pending_acknowledgement, without_pending, error_message, rejected,
}

-- `rejectPendingAcknowledgement`
unfoldable pub reject_pending_acknowledgement :
    (Fields → String) → String → String → Pending → Generation → List Notice × Generation
reject_pending_acknowledgement marshal error key request g =
    let h = without_pending key g in
    if request.method == "subscribe"
    then reject_wire_subscription marshal error request.identity h
    else ([], h)

-- An object with a type is a subscription without its method.
abbrev lone_subscription : Fields → Option (String × Fields)
lone_subscription object = elim (get_field "type" object) [
  | some (text kind) ↦ some ("", object)
  | _ ↦ none
]

-- The subscription of an object that is a request or a subscription.
abbrev object_request : Fields → Option (String × Fields)
object_request object =
    let method = as_text (get_field "method" object) in
    elim (get_field "subscription" object) [
      | some j ↦ elim (as_object j) [
        | some subscription ↦
            if method == "" then lone_subscription object else some (method, subscription)
        | none ↦ lone_subscription object
      ]
      | none ↦ lone_subscription object
    ]

abbrev or_else : Option (String × Fields) → Option (String × Fields) → Option (String × Fields)
or_else none later = later
or_else (some found) later = some found

abbrev decoded_request : Option Fields → Option (String × Fields)
decoded_request none = none
decoded_request (some object) = object_request object

-- `embeddedSubscriptionRequest`: the first brace of the message at which such an object stands.
unfoldable pub embedded_subscription_request :
    (String → Option Fields) → String → Option (String × Fields)
embedded_subscription_request decode String.[] = none
embedded_subscription_request decode (String.◌∷◌ c rest) =
    let later = embedded_subscription_request decode rest in
    if code c == 123 then or_else (decoded_request (decode (String.◌∷◌ c rest))) later else later

abbrev pub consider_alone :
    String
    → Pending
    → Option ℕ
    → Option (Option (String × Pending))
    → Option (Option (String × Pending))
consider_alone key request none found = found
consider_alone key request (some score) (some none) = some (some (key, request))
consider_alone key request (some score) _ = none

-- The only entry that the subscription matches; `none` once there are two.
unfoldable pub only_match :
    Fields
    → List (String × Pending)
    → Option (Option (String × Pending))
    → Option (Option (String × Pending))
only_match subscription [] found = found
only_match subscription ((key, request) ∷ more) found =
    only_match subscription more
      (consider_alone key request (match_score request.wire.subscription subscription) found)

abbrev pub joined : Option (Option (String × Pending)) → Option (String × Pending)
joined none = none
joined (some found) = found

-- `matchingErrorAcknowledgement`
unfoldable pub matching_error_acknowledgement :
    String → Fields → List (String × Pending) → Option (String × Pending)
matching_error_acknowledgement method subscription pending =
    if method == ""
    then joined (only_match subscription pending (some none))
    else matching_pending_acknowledgement method subscription pending

abbrev pub reject_match :
    (Fields → String) → String → Option (String × Pending) → Generation → List Notice × Generation
reject_match marshal error none g = ([], g)
reject_match marshal error (some (key, request)) g =
    reject_pending_acknowledgement marshal error key request g

-- The identities of the subscriptions that wait, each once.
unfoldable pub waiting_identities :
    List (String × Pending) → List (String × Bool) → List (String × Bool)
waiting_identities [] found = found
waiting_identities ((key, request) ∷ more) found =
    waiting_identities more
      (if request.method == "subscribe" then insert request.identity true found else found)

abbrev pub and_then : List Notice → List Notice × Generation → List Notice × Generation
and_then before (after, g) = (before ++ after, g)

unfoldable pub reject_all :
    (Fields → String) → String → List (String × Bool) → Generation → List Notice × Generation
reject_all marshal error [] g = ([], g)
reject_all marshal error ((identity, seen) ∷ more) g =
    let first = reject_wire_subscription marshal error identity g in
    and_then first.0 (reject_all marshal error more first.1)

abbrev pub reject_waiting : (Fields → String) → String → Generation → List Notice × Generation
reject_waiting marshal error g = reject_all marshal error (waiting_identities g.pending []) g

-- The fields that `rejectPendingSubscriptions` decodes.
pub record ErrorResponse : Type 0 where
  pub error : Option Json
  pub message : String
  pub method : String
  pub subscription : Option Fields
  pub request_method : String
  pub request_subscription : Option Fields

-- What the data of an error decodes as.
pub data ErrorData : Type 0 where
  structured : ErrorResponse → ErrorData
  plain : String → ErrorData
  unreadable : ErrorData

abbrev pub reason : (Json → String) → String → ErrorResponse → String
reason raw body r =
    if r.message == ""
    then elim r.error [ none ↦ body | some null ↦ body | some j ↦ error_message raw j ]
    else r.message

abbrev pub pair_with : String → Option Fields → Option (String × Fields)
pair_with method none = none
pair_with method (some subscription) = some (method, subscription)

-- The request that a structured error names, if it names one.
abbrev pub named_request : ErrorResponse → Option (String × Fields)
named_request r =
    if r.request_method == ""
    then (if r.method == "" then none else pair_with r.method r.subscription)
    else pair_with r.request_method r.request_subscription

abbrev pub reject_named :
    (Fields → String) → String → Option (String × Fields) → Generation → List Notice × Generation
reject_named marshal error (some (method, subscription)) g =
    reject_match marshal error (matching_pending_acknowledgement method subscription g.pending) g
reject_named marshal error none g = reject_waiting marshal error g

abbrev pub reject_embedded :
    (Fields → String) → String → Option (String × Fields) → Generation → List Notice × Generation
reject_embedded marshal error (some (method, subscription)) g =
    reject_match marshal error (matching_error_acknowledgement method subscription g.pending) g
reject_embedded marshal error none g = reject_waiting marshal error g

-- `rejectPendingSubscriptions`, on data whose text is `body`.
unfoldable pub reject_pending_subscriptions :
    (Fields → String)
    → (Json → String)
    → (String → Option Fields)
    → String
    → ErrorData
    → Generation
    → List Notice × Generation
reject_pending_subscriptions marshal raw decode body (structured r) g =
    reject_named marshal (rejected (reason raw body r)) (named_request r) g
reject_pending_subscriptions marshal raw decode body (plain message) g =
    reject_embedded marshal (rejected message) (embedded_subscription_request decode message) g
reject_pending_subscriptions marshal raw decode body unreadable g =
    reject_waiting marshal (rejected body) g

-- `ErrSubscriptionAckTimeout`
abbrev ack_timeout : String
ack_timeout = "websocket subscription acknowledgement timed out"

abbrev pub expired_notices : (Fields → String) → List (String × Managed) → Pending → List Notice
expired_notices marshal subs request =
    if request.method == "subscribe"
    then each (report_subscription ack_timeout) (subscriptions_for marshal request.identity subs)
    else []

-- `failExpiredAcknowledgement`, at a time. It ends the connection.
unfoldable pub fail_expired_acknowledgement :
    (Fields → String)
    → ℕ
    → List (String × Managed)
    → List (String × Pending)
    → List Notice × List (String × Pending)
fail_expired_acknowledgement marshal now subs [] = ([], [])
fail_expired_acknowledgement marshal now subs ((key, request) ∷ more) =
    let rest = fail_expired_acknowledgement marshal now subs more in
    if ltb now request.deadline
    then (rest.0, (key, request) ∷ rest.1)
    else (expired_notices marshal subs request ++ rest.0, rest.1)
