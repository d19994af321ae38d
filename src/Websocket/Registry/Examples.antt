-- ===== src/Websocket/Registry/Examples.antt =====
-- websocket/client.go: two callers of one stream, who share a lease.
use hypersdk_go.Json.{Fields, text, done, field, get_field, as_text}
use hypersdk_go.Prelude.Maps.{insert, lookup, delete, Distinct}
use hypersdk_go.Prelude.{string_eq, ℕ, ◌≡◌, refl, false, none, some, String, [], ◌∷◌}
use hypersdk_go.Websocket.Wires.{ignored_field, default_field, canonical_value, canonical_fields}
use hypersdk_go.Websocket.Registry.{
  Managed, Registry, server_subscription_identity, fingerprint, subscriptions_for,
  subscriptions_without, subscription_identity_state, detach_subscription_identity, remove,
  admit_subscription, register,
}
use hypersdk_go.Websocket.Registry.Leases.{
  registers, removes, Changes, created, then_change, new_registry, Leased, Changes-Leased,
}

runs : Unit {0}
unfolding get_field insert lookup delete ignored_field default_field canonical_value
    canonical_fields server_subscription_identity fingerprint subscriptions_for
    subscriptions_without subscription_identity_state detach_subscription_identity remove
    admit_subscription register
runs = tt

abbrev marshal : Fields → String
marshal fs = as_text (get_field "coin" fs)

abbrev caller : ℕ → String → Managed
caller pointer key = record {
  pointer = pointer;
  key = key;
  wire = record {
    method = "subscribe";
    subscription = field "type" (text "trades") (field "coin" (text "BTC") done);
  };
  is_done = false;
}

abbrev first : Registry
first = (register marshal (some 7) (caller 1 "a") new_registry).1

abbrev second : Registry
second = (register marshal none (caller 2 "b") first).1

abbrev third : Registry
third = (remove marshal "a" (caller 1 "a") second).1

-- The first caller goes, and the lease stays.
third_leases : third.leases ≡ ("BTC", 7) ∷ []
unfolding runs
third_leases = refl

last_release :
    remove marshal "b" (caller 2 "b") third
    ≡ (some 7, record { closed = false; subs = []; leases = [] })
unfolding runs
last_release = refl

history : Changes marshal third
unfolding runs
history =
    then_change
      (then_change (then_change created (registers new_registry (some 7) (caller 1 "a")))
        (registers first none (caller 2 "b")))
      (removes second (caller 1 "a") refl)

Changes-Leased_example : Distinct third.subs × Leased marshal third
Changes-Leased_example = Changes-Leased marshal history
