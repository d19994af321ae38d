-- ===== src/Websocket/Manager/Answered.antt =====
-- websocket/manager.go: every answer of the server keeps a connection's state tracked.
use hypersdk_go.Json.{Json, Fields}
use hypersdk_go.Prelude.{
  ◌≡◌, refl, ap, subst, Bool, Option, none, some, String, string_eq, ◌==◌, List, [], ◌∷◌,
  Bool-cases, inl, inr,
}
use hypersdk_go.Websocket.Manager.{
  Pending, Notice, Generation, reject_wire_subscription, settle_match,
  matching_pending_acknowledgement, Response, refusal, answer_subscription,
  acknowledge_subscription, rejected,
}
use hypersdk_go.Websocket.Manager.Errors.{
  reject_match, reject_all, reject_waiting, reject_named, reject_embedded,
  reject_pending_subscriptions, waiting_identities, ErrorData, structured, plain, unreadable,
  and_then, reason, named_request, embedded_subscription_request, matching_error_acknowledgement,
}
use hypersdk_go.Websocket.Manager.Tracked.{Keyed, Tracks-but}
use hypersdk_go.Websocket.Manager.Matches.{
  OfSome, matching_pending_acknowledgement-OfSome, matching_error_acknowledgement-OfSome,
}
use hypersdk_go.Websocket.Manager.Served.{
  IsTracked, Keeps, reject_wire_subscription-Keeps, reject_pending_acknowledgement-Keeps,
  settle_acknowledgement-Keeps,
}

abbrev or_generation : Generation → Option Generation → Generation
or_generation g none = g
or_generation g (some h) = h

itself : (g : Generation) → IsTracked g → Keeps g g
itself g t = (t, λ j h. h)

settle_match-Keeps :
    (marshal : Fields → String) (error : Option String) (found : Option (String × Pending))
    (g : Generation)
    → OfSome Keyed found
    → IsTracked g
    → Keeps g (settle_match marshal error found g).1
settle_match-Keeps marshal error none g k t = itself g t
settle_match-Keeps marshal error (some (key, p)) g k t =
    settle_acknowledgement-Keeps g key p k t marshal error

generation_of_some : (g h : Generation) → some g ≡ some h → g ≡ h
generation_of_some g h e = ap (or_generation g) e

answer_subscription-Keeps :
    (marshal : Fields → String) (raw : Json → String) (response : Response)
    (subscription : Option Fields) (g h : Generation)
    → (answer_subscription marshal raw response subscription g).1 ≡ some h
    → IsTracked g
    → Keeps g h
answer_subscription-Keeps marshal raw response none g h e t = cc
answer_subscription-Keeps marshal raw response (some subscription) g h e t =
    let found = matching_pending_acknowledgement response.method subscription g.pending in
    let error = refusal raw response.error in
    subst (Keeps g) (generation_of_some (settle_match marshal error found g).1 h e) (
      settle_match-Keeps marshal error found g
        (matching_pending_acknowledgement-OfSome Keyed response.method subscription g.pending t.1)
        t)

pub acknowledge_subscription-Keeps :
    (marshal : Fields → String) (raw : Json → String) (response : Option Response)
    (g h : Generation)
    → (acknowledge_subscription marshal raw response g).1 ≡ some h
    → IsTracked g
    → Keeps g h
unfolding acknowledge_subscription
acknowledge_subscription-Keeps marshal raw none g h e t = cc
acknowledge_subscription-Keeps marshal raw (some response) g h e t =
    elim (Bool-cases (response.method == "")) [
      | inl unnamed ↦ let gone : none ≡ some h = rw unnamed at e in cc
      | inr named ↦
          answer_subscription-Keeps marshal raw response response.subscription g h (rw named at e) t
    ]

reject_match-Keeps :
    (marshal : Fields → String) (error : String) (found : Option (String × Pending))
    (g : Generation)
    → OfSome Keyed found
    → IsTracked g
    → Keeps g (reject_match marshal error found g).1
reject_match-Keeps marshal error none g k t = itself g t
reject_match-Keeps marshal error (some (key, p)) g k t =
    reject_pending_acknowledgement-Keeps g key p k t marshal error

and_then-state : (before : List Notice) (x : List Notice × Generation) → (and_then before x).1 ≡ x.1
and_then-state before (after, g) = refl

reject_all-Keeps :
    (marshal : Fields → String) (error : String) (identities : List (String × Bool))
    (g : Generation)
    → IsTracked g
    → Keeps g (reject_all marshal error identities g).1
unfolding reject_all
reject_all-Keeps marshal error [] g t = itself g t
reject_all-Keeps marshal error ((identity, seen) ∷ more) g t =
    let first = reject_wire_subscription marshal error identity g in
    let one =
      reject_wire_subscription-Keeps marshal error identity g
        (Tracks-but g.subscribed g.pending t.0 identity) t.1 in
    let others = reject_all-Keeps marshal error more first.1 one.0 in
    rw (and_then-state first.0 (reject_all marshal error more first.1))
      (others.0, λ j h. others.1 j (one.1 j h))

reject_waiting-Keeps :
    (marshal : Fields → String) (error : String) (g : Generation)
    → IsTracked g
    → Keeps g (reject_waiting marshal error g).1
reject_waiting-Keeps marshal error g t =
    reject_all-Keeps marshal error (waiting_identities g.pending []) g t

reject_named-Keeps :
    (marshal : Fields → String) (error : String) (request : Option (String × Fields))
    (g : Generation)
    → IsTracked g
    → Keeps g (reject_named marshal error request g).1
reject_named-Keeps marshal error none g t = reject_waiting-Keeps marshal error g t
reject_named-Keeps marshal error (some (method, subscription)) g t =
    reject_match-Keeps marshal error
      (matching_pending_acknowledgement method subscription g.pending) g
      (matching_pending_acknowledgement-OfSome Keyed method subscription g.pending t.1) t

reject_embedded-Keeps :
    (marshal : Fields → String) (error : String) (request : Option (String × Fields))
    (g : Generation)
    → IsTracked g
    → Keeps g (reject_embedded marshal error request g).1
reject_embedded-Keeps marshal error none g t = reject_waiting-Keeps marshal error g t
reject_embedded-Keeps marshal error (some (method, subscription)) g t =
    reject_match-Keeps marshal error (matching_error_acknowledgement method subscription g.pending)
      g (matching_error_acknowledgement-OfSome Keyed method subscription g.pending t.1) t

pub reject_pending_subscriptions-Keeps :
    (marshal : Fields → String) (raw : Json → String) (decode : String → Option Fields)
    (body : String) (error : ErrorData) (g : Generation)
    → IsTracked g
    → Keeps g (reject_pending_subscriptions marshal raw decode body error g).1
unfolding reject_pending_subscriptions
reject_pending_subscriptions-Keeps marshal raw decode body (structured r) g t =
    reject_named-Keeps marshal (rejected (reason raw body r)) (named_request r) g t
reject_pending_subscriptions-Keeps marshal raw decode body (plain message) g t =
    reject_embedded-Keeps marshal (rejected message) (embedded_subscription_request decode message)
      g t
reject_pending_subscriptions-Keeps marshal raw decode body unreadable g t =
    reject_waiting-Keeps marshal (rejected body) g t
