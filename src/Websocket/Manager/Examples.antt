-- ===== src/Websocket/Manager/Examples.antt =====
-- websocket/manager.go: connections with one and two callers of a stream.
use hypersdk_go.Json.{Fields, text, done, field, get_field, as_text}
use hypersdk_go.Prelude.Maps.{insert, lookup, delete}
use hypersdk_go.Prelude.{
  string_eq, ℕ, ◌≡◌, refl, true, false, Option, none, some, String, List, [], ◌∷◌,
}
use hypersdk_go.Prelude.Texts.{lower_char, to_lower}
use hypersdk_go.Websocket.Wires.{
  Wire, canonical_value, canonical_fields, canonical_wire, ignored_field, default_field, same_value,
  field_equal, ack_compatible, field_score, score_fields, match_score,
}
use hypersdk_go.Websocket.Registry.{
  Managed, Registry, server_subscription_identity, fingerprint, subscriptions_for,
  subscriptions_without, subscription_identity_state, detach_subscription_identity, remove,
  admit_subscription, register,
}
use hypersdk_go.Websocket.Manager.{
  Active, Pending, connected, subscribed_state, state_change, terminate, release, Generation,
  pending_ack_key, state_subscription, report_subscription, undetached, reject_wire_subscription,
  entry_score, best_match, matching_pending_acknowledgement, Response, acknowledge_subscription,
  report_all,
}
use hypersdk_go.Websocket.Manager.Errors.{
  reject_pending_acknowledgement, embedded_subscription_request, reject_all,
  reject_pending_subscriptions, waiting_identities, only_match, matching_error_acknowledgement,
  plain, fail_expired_acknowledgement,
}
use hypersdk_go.Websocket.Manager.Sync.{
  group_subscriptions, canonical_groups, idle, Connection, at, with_generation, with_registry,
  take_snapshot, check_active, finish_join, commit_unsubscribe, start_subscribe, commit_subscribe,
  write_admitted,
}
use hypersdk_go.Websocket.Manager.Steps.{
  Codec, opened, snapshots, starts, subscribes, acknowledges, Reaches, here, next,
}
use hypersdk_go.Websocket.Manager.Matches.{IsBest, matching_pending_acknowledgement-IsBest}
use hypersdk_go.Websocket.Manager.Invariant.{IsConsistent, Reaches-IsConsistent}
use hypersdk_go.Websocket.Manager.Tracked.{has}
use hypersdk_go.Websocket.Manager.Groups.{WellKept}
use hypersdk_go.Websocket.Manager.Rounds.{turns, sync_subscriptions}
use hypersdk_go.Websocket.Manager.Converges.{sync_subscriptions-present}

runs : Unit {0}
unfolding lower_char to_lower get_field insert lookup delete ignored_field default_field
    canonical_value canonical_fields canonical_wire same_value field_equal ack_compatible
    field_score score_fields match_score server_subscription_identity fingerprint subscriptions_for
    subscriptions_without subscription_identity_state detach_subscription_identity remove
    admit_subscription register pending_ack_key state_subscription report_subscription undetached
    reject_wire_subscription entry_score best_match matching_pending_acknowledgement
    acknowledge_subscription report_all reject_pending_acknowledgement embedded_subscription_request
    reject_all reject_pending_subscriptions waiting_identities only_match
    matching_error_acknowledgement fail_expired_acknowledgement group_subscriptions canonical_groups
    take_snapshot check_active finish_join commit_unsubscribe start_subscribe commit_subscribe
    write_admitted turns sync_subscriptions
runs = tt

-- The text of a subscription, as far as these examples tell subscriptions apart.
abbrev marshal : Fields → String
marshal fs = as_text (get_field "coin" fs)

abbrev codec : Codec
codec = record { marshal = marshal; raw = λ j. ""; decode = λ s. none }

abbrev trades : String → Wire
trades coin = record {
  method = "subscribe";
  subscription = field "type" (text "trades") (field "coin" (text coin) done);
}

abbrev caller : ℕ → String → String → Managed
caller pointer key coin = record {
  pointer = pointer;
  key = key;
  wire = trades coin;
  is_done = false;
}

abbrev btc : Managed
btc = caller 1 "trades:BTC" "BTC"

abbrev registry : Registry
registry = record { closed = false; subs = ("trades:BTC", btc) ∷ []; leases = ("BTC", 7) ∷ [] }

abbrev seen : Connection
seen = take_snapshot marshal (opened registry)

abbrev group : Active
group = record { wire = trades "BTC"; members = ("trades:BTC", btc) ∷ []; acked = false }

abbrev started : Connection
started = (start_subscribe "BTC" seen).1

abbrev written : Connection
written = at idle (with_generation (commit_subscribe "BTC" group 5 started.generation) started)

abbrev accepted : Option Response
accepted =
    some (record {
      method = "subscribe";
      subscription = some (trades "BTC").subscription;
      error = none;
    })

abbrev acknowledged : Generation
acknowledged = record {
  registry = registry;
  subscribed =
      ("BTC", record { wire = trades "BTC"; members = ("trades:BTC", btc) ∷ []; acked = true })
      ∷ [];
  pending = [];
}

history : Reaches codec (opened registry) (with_generation acknowledged written)
unfolding runs
history =
    next
      (next (next (next here (snapshots (opened registry) refl)) (starts seen "BTC" refl))
        (subscribes started "BTC" group 5 refl refl))
      (acknowledges written accepted (state_change btc subscribed_state ∷ []) acknowledged refl)

Reaches-IsConsistent_example : IsConsistent (with_generation acknowledged written)
Reaches-IsConsistent_example = Reaches-IsConsistent codec registry history

-- A server that refuses: the caller is terminated, and its lease given back.
refused :
    reject_pending_subscriptions marshal (λ j. "") (λ s. none) "" (plain "no") written.generation
    ≡ (
      release 7 ∷ terminate btc "websocket subscription rejected: no" ∷ [],
      record {
        registry = record { closed = false; subs = []; leases = [] };
        subscribed = [];
        pending = [];
      },
    )
unfolding runs
refused = refl

abbrev entries : List (String × Pending)
entries =
    (
      "subscribe:ETH",
      record { method = "subscribe"; identity = "ETH"; wire = trades "ETH"; deadline = 1 },
    )
    ∷ (
      "subscribe:BTC",
      record { method = "subscribe"; identity = "BTC"; wire = trades "BTC"; deadline = 2 },
    )
    ∷ []

matching_pending_acknowledgement-IsBest_example :
    IsBest "subscribe"
      (trades "BTC").subscription
      entries
      (matching_pending_acknowledgement "subscribe" (trades "BTC").subscription entries)
matching_pending_acknowledgement-IsBest_example =
    matching_pending_acknowledgement-IsBest "subscribe" (trades "BTC").subscription entries

-- A second caller of the stream.
abbrev other : Managed
other = caller 2 "trades:btc" "BTC"

abbrev both : Connection
both = take_snapshot marshal (
    with_generation
      (with_registry (register marshal none other written.generation.registry).1 written.generation)
      written)

-- The synchronizer looks at the group before the acknowledgement comes, and tells the second caller
-- that it is connected.
join_notices : (check_active "BTC" both).0 ≡ state_change other connected ∷ []
unfolding runs
join_notices = refl

-- The acknowledgement comes before the new members are in place, and tells only the first caller.
ack_notices :
    (acknowledge_subscription marshal (λ j. "") accepted both.generation).0
    ≡ state_change btc subscribed_state ∷ []
unfolding runs
ack_notices = refl

abbrev or_before : Generation → Option Generation → Generation
or_before g none = g
or_before g (some h) = h

-- The connection once the acknowledgement and then the new members are in place.
abbrev settled : Connection
settled = take_snapshot marshal (
    with_generation
      (finish_join "BTC" (("trades:BTC", btc) ∷ ("trades:btc", other) ∷ []) (
        or_before both.generation
          (acknowledge_subscription marshal (λ j. "") accepted both.generation).1))
      both)

-- No later round tells the second caller that it is subscribed.
later_notices : (check_active "BTC" settled).0 ≡ []
unfolding runs
later_notices = refl

-- A connection that still has a stream which nobody wants any more.
abbrev behind : Connection
behind = record {
  generation = record {
    registry = registry;
    subscribed = ("ETH", record { wire = trades "ETH"; members = []; acked = true }) ∷ [];
    pending = [];
  };
  current = [];
  sync = idle;
}

abbrev caught_up : Generation
caught_up = (sync_subscriptions marshal (λ m. true) 5 behind).1.generation

caught_up_active : caught_up.subscribed ≡ ("BTC", group) ∷ []
unfolding runs
caught_up_active = refl

registry_WellKept : WellKept registry.subs
unfolding lookup
registry_WellKept = ((refl, tt), (refl, tt))

sync_subscriptions-present_example :
    ((sync_subscriptions marshal (λ m. true) 5 behind).0 ≡ true)
    × (caught_up.registry ≡ registry)
    × ((i : String)
        → has (lookup i caught_up.subscribed) ≡ (subscription_identity_state marshal i registry).0)
sync_subscriptions-present_example = sync_subscriptions-present marshal 5 behind registry_WellKept
