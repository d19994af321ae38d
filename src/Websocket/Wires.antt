-- ===== src/Websocket/Wires.antt =====
-- websocket/wire_identity.go: subscriptions as the server tells them apart. The values of a
-- subscription are JSON values; numbers are compared as numbers, which a float64 holds exactly up
-- to 2^53.
pub mod Canonical
pub mod Echo
mod Examples
use hypersdk_go.Prelude.Int.{ℤ}
use hypersdk_go.Prelude.Texts.{to_lower}
use hypersdk_go.Json.{
  Json, Items, Fields, null, boolean, number, text, array, object, nil, item, done, field,
  get_field, as_text,
}
use hypersdk_go.Asset.{int_beq}
use hypersdk_go.Prelude.{
  ℕ, zero, suc, ◌+◌, Bool, true, false, not, ◌&&◌, ◌||◌, Option, none, some, String, string_eq,
  nat_eq, ◌==◌, if◌then◌else◌,
}

-- `subscriptionWire`
pub record Wire : Type 0 where
  pub method : String
  pub subscription : Fields

abbrev pub portfolio_field : String → Bool
portfolio_field key = key == "isPortfolioMargin" || key == "ignorePortfolioMargin"

-- `serverIdentityIgnoredField`
unfoldable pub ignored_field : String → String → Bool
ignored_field kind key = kind == "spotState" && portfolio_field key

-- `serverDefaultField`
unfoldable pub default_field : String → String → Json → Bool
default_field kind key null =
    (kind == "l2Book" && (key == "nSigFigs" || key == "mantissa"))
    || (kind == "spotState" && portfolio_field key)
default_field kind key (boolean false) =
    if kind == "l2Book"
    then key == "fast"
    else if kind == "userFills"
    then key == "aggregateByTime"
    else if kind == "spotState"
    then portfolio_field key
    else false
default_field kind key _ = false

abbrev pub kept_value : String → String → Json → Option Json
kept_value kind key value =
    if ignored_field kind key || default_field kind key value then none else some value

-- What the loop keeps of a field.
unfoldable pub canonical_value : String → String → Json → Option Json
canonical_value kind key (text user) =
    if key == "user" then some (text (to_lower user)) else kept_value kind key (text user)
canonical_value kind key value = kept_value kind key value

abbrev pub put : String → Option Json → Fields → Fields
put key none fs = fs
put key (some value) fs = field key value fs

unfoldable pub canonical_fields : String → Fields → Fields
canonical_fields kind done = done
canonical_fields kind (field key value more) =
    put key (canonical_value kind key value) (canonical_fields kind more)

-- `kind, _ := subscription["type"].(string)`
abbrev pub kind_of : Fields → String
kind_of fs = as_text (get_field "type" fs)

-- `canonicalSubscriptionWire`, whose subscription is also what `serverSubscriptionIdentity`
-- marshals.
unfoldable pub canonical_wire : Wire → Wire
canonical_wire w = record {
  method = w.method;
  subscription = canonical_fields (kind_of w.subscription) w.subscription;
}

-- `reflect.DeepEqual` or equal numbers, on values without arrays and objects, which no subscription
-- holds.
unfoldable pub same_value : Json → Json → Bool
same_value null null = true
same_value (boolean true) (boolean b) = b
same_value (boolean false) (boolean b) = not b
same_value (number a) (number b) = int_beq a b
same_value (text s) (text t) = s == t
same_value _ _ = false

abbrev pub same_user : Json → Json → Bool
same_user (text s) (text t) = to_lower s == to_lower t
same_user _ _ = false

-- `subscriptionFieldEqual`
unfoldable pub field_equal : String → Json → Json → Bool
field_equal key expected actual =
    if key == "user" then same_user expected actual else same_value expected actual

abbrev is_boolean : Json → Bool
is_boolean (boolean b) = true
is_boolean _ = false

abbrev is_false : Option Json → Bool
is_false (some (boolean false)) = true
is_false _ = false

-- `spotStateAckCompatible`
unfoldable pub ack_compatible : String → String → Json → Fields → Bool
ack_compatible kind key expected response =
    kind == "spotState"
    && key == "isPortfolioMargin"
    && is_boolean expected
    && is_false (get_field "ignorePortfolioMargin" response)

abbrev pub weight : String → String → Json → ℕ
weight kind key expected = if default_field kind key expected then 0 else 1

abbrev pub against : String → String → Json → Option Json → Option ℕ
against kind key expected none = if default_field kind key expected then some 0 else none
against kind key expected (some actual) =
    if field_equal key expected actual then some (weight kind key expected) else none

-- What a field adds to the score, `none` where the subscriptions do not match.
unfoldable pub field_score : String → String → Json → Fields → Option ℕ
field_score kind key expected response =
    if ack_compatible kind key expected response
    then some (weight kind key expected)
    else against kind key expected (get_field key response)

abbrev pub add_score : Option ℕ → Option ℕ → Option ℕ
add_score none b = none
add_score (some a) none = none
add_score (some a) (some b) = some (a + b)

unfoldable pub score_fields : String → Fields → Fields → Option ℕ
score_fields kind response done = some 0
score_fields kind response (field key expected more) =
    add_score (field_score kind key expected response) (score_fields kind response more)

-- `subscriptionMatchScore`
unfoldable pub match_score : Fields → Fields → Option ℕ
match_score request response = score_fields (kind_of request) response request
