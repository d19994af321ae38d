-- ===== src/Websocket/Registry.antt =====
-- websocket/client.go: the registry of subscriptions, and how one comes in (subscription.go,
-- admission.go). `marshal` is json.Marshal of a subscription, and a lease is a release function of
-- the admission gate.
pub mod Present
pub mod Leases
mod Examples
use hypersdk_go.Json.{Fields}
use hypersdk_go.Prelude.Maps.{insert, lookup, delete}
use hypersdk_go.Prelude.{
  ℕ, Bool, true, false, Option, none, some, String, string_eq, nat_eq, ◌==◌, List, [], ◌∷◌,
  if◌then◌else◌,
}
use hypersdk_go.Websocket.Wires.{Wire, kind_of, canonical_fields, canonical_wire}

-- A `managedSubscription`, as one pointer, and whether it is done.
pub record Managed : Type 0 where
  pub pointer : ℕ
  pub key : String
  pub wire : Wire
  pub is_done : Bool

-- The registry's fields of `Client`; `handles` has the keys of `subs`.
pub record Registry : Type 0 where
  pub closed : Bool
  pub subs : List (String × Managed)
  pub leases : List (String × ℕ)

unfoldable pub server_subscription_identity : (Fields → String) → Fields → String
server_subscription_identity marshal fs = marshal (canonical_fields (kind_of fs) fs)

-- `subscriptionWireFingerprint`
unfoldable pub fingerprint : (Fields → String) → Wire → String
fingerprint marshal w = marshal w.subscription

abbrev pub identity_of : (Fields → String) → Managed → String
identity_of marshal s = server_subscription_identity marshal s.wire.subscription

-- `subscriptionsForIdentity`, with the keys.
unfoldable pub subscriptions_for :
    (Fields → String) → String → List (String × Managed) → List (String × Managed)
subscriptions_for marshal identity [] = []
subscriptions_for marshal identity ((key, s) ∷ more) =
    let rest = subscriptions_for marshal identity more in
    if identity_of marshal s == identity then (key, s) ∷ rest else rest

-- The loop of `detachSubscriptionIdentity` leaves the others.
unfoldable pub subscriptions_without :
    (Fields → String) → String → List (String × Managed) → List (String × Managed)
subscriptions_without marshal identity [] = []
subscriptions_without marshal identity ((key, s) ∷ more) =
    let rest = subscriptions_without marshal identity more in
    if identity_of marshal s == identity then rest else (key, s) ∷ rest

abbrev pub last_wire : Managed → List (String × Managed) → Wire
last_wire s [] = s.wire
last_wire s ((key, t) ∷ more) = last_wire t more

abbrev pub state_of : (Fields → String) → List (String × Managed) → Bool × String
state_of marshal [] = (false, "")
state_of marshal ((key, s) ∷ []) = (true, fingerprint marshal s.wire)
state_of marshal ((key, s) ∷ (k, t) ∷ more) =
    (true, fingerprint marshal (canonical_wire (last_wire t more)))

-- `subscriptionIdentityState`: whether the identity is wanted, and the fingerprint of its wire.
unfoldable pub subscription_identity_state : (Fields → String) → String → Registry → Bool × String
subscription_identity_state marshal identity r =
    state_of marshal (subscriptions_for marshal identity r.subs)

-- `detachSubscriptionIdentity`: what is detached, the lease that is released, and the registry.
unfoldable pub detach_subscription_identity :
    (Fields → String) → String → Registry → List (String × Managed) × Option ℕ × Registry
detach_subscription_identity marshal identity r = (
  subscriptions_for marshal identity r.subs,
  lookup identity r.leases,
  record {
    closed = r.closed;
    subs = subscriptions_without marshal identity r.subs;
    leases = delete identity r.leases;
  },
)

-- The rest of `remove`, when the subscription was there: the last of an identity gives up the
-- lease.
abbrev pub after_remove : (Fields → String) → String → Registry → Option ℕ × Registry
after_remove marshal identity r =
    if (subscription_identity_state marshal identity r).0 then (none, r) else (
      lookup identity r.leases,
      record { closed = r.closed; subs = r.subs; leases = delete identity r.leases },
    )

abbrev pub is_registered : ℕ → Option Managed → Bool
is_registered pointer none = false
is_registered pointer (some s) = s.pointer == pointer

-- `remove`
unfoldable pub remove : (Fields → String) → String → Managed → Registry → Option ℕ × Registry
remove marshal key s r =
    if is_registered s.pointer (lookup key r.subs)
    then after_remove marshal (identity_of marshal s)
        (record { closed = r.closed; subs = delete key r.subs; leases = r.leases })
    else (none, r)

abbrev admitted : (Fields → String) → ℕ → Managed → Registry → Registry
admitted marshal lease s r = record {
  closed = r.closed;
  subs = r.subs;
  leases = insert (identity_of marshal s) lease r.leases;
}

abbrev pub admit_unless :
    (Fields → String) → Option ℕ → Option ℕ → Managed → Registry → Option Registry
admit_unless marshal (some lease) acquired s r = some r
admit_unless marshal none none s r = none
admit_unless marshal none (some lease) s r = some (admitted marshal lease s r)

-- `admitSubscription`, with what `Acquire` answers.
unfoldable pub admit_subscription :
    (Fields → String) → Option ℕ → Managed → Registry → Option Registry
admit_subscription marshal acquired s r =
    admit_unless marshal (lookup (identity_of marshal s) r.leases) acquired s r

-- What `SubscribeL2Book` answers.
pub data Registration : Type 0 where
  websocket_closed not_admitted registered : Registration
  existing : Managed → Registration

abbrev pub publish : Managed → Registry → Option Registry → Registration × Registry
publish s r none = (not_admitted, r)
publish s r (some a) =
    (registered, record { closed = a.closed; subs = insert s.key s a.subs; leases = a.leases })

abbrev pub register_new :
    (Fields → String) → Option ℕ → Managed → Registry → Option Managed → Registration × Registry
register_new marshal acquired s r (some found) = (existing found, r)
register_new marshal acquired s r none = publish s r (admit_subscription marshal acquired s r)

-- `SubscribeL2Book` from the lock on, which the other subscriptions share. A subscription of
-- another type under the key, which the source refuses, is not told apart, and the state event and
-- the wake that follow change nothing here.
unfoldable pub register :
    (Fields → String) → Option ℕ → Managed → Registry → Registration × Registry
register marshal acquired s r =
    if r.closed
    then (websocket_closed, r)
    else register_new marshal acquired s r (lookup s.key r.subs)
