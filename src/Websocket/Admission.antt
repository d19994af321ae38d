-- ===== src/Websocket/Admission.antt =====
-- websocket/admission.go, the gate. `Acquire` and each release hold the gate's mutex, so their
-- effects are a sequence. Reference counts are unbounded numbers.
mod Counts
mod Invariant
mod Budget
mod Held
mod Decisions
mod Examples
use text.Mathlib.TextEquality.{eq_iff}
use hypersdk_go.Prelude.Int.{ℤ, pos, pos_part, leb_ℤ}
use hypersdk_go.Prelude.Texts.{to_lower, trim_space}
use hypersdk_go.Prelude.Maps.{or_zero, lookup, insert, delete}
use hypersdk_go.Prelude.{
  ℕ, ◌+◌, ◌-◌, ◌≡◌, ◌↔◌, refl, Bool, true, false, not, ◌&&◌, Option, none, some, List, [], ◌∷◌,
  String, Equality, nat_eq, string_eq, ◌==◌, ltb, leb, if◌then◌else◌, Result, ok, err, get_elem?,
  set, length, arith,
}

-- `SubscriptionAdmissionRequest`
pub record Request : Type 0 where
  pub owner_id : ℕ
  pub server_identity : String
  pub user : String

-- `subscriptionAdmissionKey`
pub record Key : Type 0 where
  pub owner : ℕ
  pub identity : String
  pub user : String

unfoldable pub key_beq : Key → Key → Bool
key_beq k j = k.owner == j.owner && k.identity == j.identity && k.user == j.user

pub key_beq_iff : (k j : Key) → (key_beq k j ≡ true) ↔ (k ≡ j)
unfolding key_beq
key_beq_iff k j = ground (arith, eq_iff k.identity j.identity, eq_iff k.user j.user)

instance abbrev pub key_eq : Equality Key
key_eq = record { equals = key_beq; equals_iff = key_beq_iff }

-- `referenceSubscriptionAdmissionGate`, without its mutex.
pub record Gate : Type 0 where
  pub max_subscriptions : ℕ
  pub max_users : ℕ
  pub references : List (Key × ℕ)
  pub user_references : List (String × ℕ)

pub data AdmissionError : Type 0 where
  active_subscription_limit unique_user_limit : AdmissionError

abbrev or_default : ℤ → ℕ → ℕ
or_default a d = if leb_ℤ a (pos 0) then d else pos_part a

-- `NewSubscriptionAdmissionGate`
unfoldable pub new_gate : ℤ → ℤ → Gate
new_gate max_subscriptions max_users = record {
  max_subscriptions = or_default max_subscriptions 1000;
  max_users = or_default max_users 10;
  references = [];
  user_references = [];
}

abbrev pub references_of : Gate → Key → ℕ
references_of g k = or_zero (lookup k g.references)

abbrev pub user_references_of : Gate → String → ℕ
user_references_of g u = or_zero (lookup u g.user_references)

-- `normalizeSubscriptionUser`
unfoldable pub normalize_user : String → String
normalize_user user = to_lower (trim_space user)

unfoldable pub request_key : Request → Key
request_key r = record {
  owner = r.owner_id;
  identity = r.server_identity;
  user = normalize_user r.user;
}

abbrev pub bump_user : String → Gate → List (String × ℕ)
bump_user u g =
    if u == "" then g.user_references else insert u (user_references_of g u + 1) g.user_references

-- `Acquire`, on the key of the request.
unfoldable pub acquire_key : Key → Gate → Result AdmissionError Key × Gate
acquire_key k g =
    if references_of g k == 0
    then if leb g.max_subscriptions (length g.references)
      then (err active_subscription_limit, g)
      else if not (k.user == "")
          && user_references_of g k.user == 0
          && leb g.max_users (length g.user_references)
      then (err unique_user_limit, g)
      else (
        ok k,
        record g { references = insert k 1 g.references; user_references = bump_user k.user g },
      )
    else (ok k, record g { references = insert k (references_of g k + 1) g.references })

-- `Acquire`; the release function that it returns is known by its key.
unfoldable pub acquire : Request → Gate → Result AdmissionError Key × Gate
acquire r g = acquire_key (request_key r) g

abbrev pub drop_user : String → Gate → List (String × ℕ)
drop_user u g =
    if u == ""
    then g.user_references
    else if ltb 1 (user_references_of g u)
    then insert u (user_references_of g u - 1) g.user_references
    else delete u g.user_references

-- The body of a release function.
unfoldable pub release_key : Key → Gate → Gate
release_key k g =
    if ltb 1 (references_of g k)
    then record g { references = insert k (references_of g k - 1) g.references }
    else record g { references = delete k g.references; user_references = drop_user k.user g }

-- A release function that was handed out, and whether its `sync.Once` is spent.
pub record Lease : Type 0 where
  pub key : Key
  pub spent : Bool

-- A gate and the release functions that it handed out, newest first.
pub record System : Type 0 where
  pub gate : Gate
  pub leases : List Lease

pub data Operation : Type 0 where
  acquires : Request → Operation
  releases : ℕ → Operation

abbrev grant : System → Result AdmissionError Key × Gate → System
grant s (ok k, g) = record { gate = g; leases = record { key = k; spent = false } ∷ s.leases }
grant s (err e, g) = record s { gate = g }

-- A call of a release function.
unfoldable pub call_release : System → ℕ → Option Lease → System
call_release s i none = s
call_release s i (some l) = if l.spent then s else record {
  gate = release_key l.key s.gate;
  leases = set s.leases i (record l { spent = true });
}

unfoldable pub step : System → Operation → System
unfolding call_release
step s (acquires r) = grant s (acquire r s.gate)
step s (releases i) = call_release s i (get_elem? s.leases i)

unfoldable pub run : System → List Operation → System
run s [] = s
run s (o ∷ os) = run (step s o) os
