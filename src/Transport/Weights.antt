-- ===== src/Transport/Weights.antt =====
-- transport/weighted_rate_limit.go, the official weight policy. A payload is the JSON value that it
-- marshals to, which is what `payloadObject` reads. Weights are uint64.
mod Batches
mod Examples
use hypersdk_go.Json.{
  Json, Fields, null, boolean, number, text, array, object, count_items, get_field, as_object,
  as_text,
}
use hypersdk_go.Prelude.{
  ℕ, zero, suc, ◌+◌, ◌/◌, Bool, true, false, ◌&&◌, ◌||◌, not, Option, none, some, List, [], ◌∷◌,
  String, string_eq, nat_eq, ◌==◌, if◌then◌else◌,
}

-- `RequestKind`; `other` is any string that is not one of the constants.
pub data RequestKind : Type 0 where
  info action explorer : RequestKind
  other : String → RequestKind

-- `payloadObject`
abbrev pub payload_object : Json → Option Fields
payload_object = as_object

abbrev text_field : String → Option Fields → String
text_field name none = ""
text_field name (some fs) = as_text (get_field name fs)

-- `requestType`
unfoldable pub request_type : Json → String
request_type payload = text_field "type" (payload_object payload)

-- `batchLength`
unfoldable pub batch_length : Option Json → ℕ
batch_length (some (array js)) = count_items js
batch_length _ = 0

-- The first of the names that is a field.
unfoldable pub first_present : List String → Fields → String
first_present [] fs = ""
first_present (name ∷ names) fs = elim (get_field name fs) [
  | none ↦ first_present names fs
  | some j ↦ name
]

abbrev pub deploy_batches : List String
deploy_batches =
    "setFundingMultipliers" ∷ "setFundingInterestRates" ∷ "setMarginTableIds"
    ∷ "setOpenInterestCaps" ∷ "setMarginModes" ∷ "setGrowthModes" ∷ []

-- `exchangeBatchField`, on the action's type.
unfoldable pub batch_field_of : String → Fields → String
batch_field_of type fs =
    if type == "order"
    then "orders"
    else if type == "cancel" || type == "cancelByCloid"
    then "cancels"
    else if type == "batchModify"
    then "modifies"
    else if type == "perpDeploy"
    then first_present deploy_batches fs
    else ""

-- `exchangeBatchField`
unfoldable pub exchange_batch_field : Fields → String
exchange_batch_field fs = batch_field_of (as_text (get_field "type" fs)) fs

abbrev or_null : Option Json → Json
or_null none = null
or_null (some j) = j

abbrev action_of : Option Json → Json
action_of (some (object inner)) = or_null (get_field "action" inner)
action_of _ = null

-- The action inside a multi-signature payload; a missing one is a nil value, as `null` is.
unfoldable pub inner_action : Fields → Json
inner_action fs = action_of (get_field "payload" fs)

-- `nestedExchangeBatchLength`, over the levels that are left of the eight.
unfoldable pub nested_batch_length : ℕ → Json → ℕ
nested_batch_length zero body = 0
nested_batch_length (suc left) (object fs) =
    let inside = nested_batch_length left (inner_action fs) in
    if not (exchange_batch_field fs == "")
    then batch_length (get_field (exchange_batch_field fs) fs)
    else if as_text (get_field "type" fs) == "multiSig"
    then inside
    else 0
nested_batch_length (suc left) _ = 0

abbrev batch_of_action : Option Json → ℕ
batch_of_action none = 0
batch_of_action (some body) = nested_batch_length 8 body

-- `exchangeBatchLength`
unfoldable pub exchange_batch_length : Json → ℕ
exchange_batch_length (object fs) = batch_of_action (get_field "action" fs)
exchange_batch_length _ = 0

unfoldable pub is_one_of : String → List String → Bool
is_one_of s [] = false
is_one_of s (t ∷ ts) = s == t || is_one_of s ts

abbrev pub light_requests : List String
light_requests =
    "l2Book" ∷ "allMids" ∷ "clearinghouseState" ∷ "orderStatus" ∷ "spotClearinghouseState"
    ∷ "exchangeStatus" ∷ []

-- `RequestWeight`
unfoldable pub request_weight : RequestKind → Json → ℕ
request_weight action payload = 1 + exchange_batch_length payload / 40
request_weight explorer payload = 40
request_weight info payload =
    if is_one_of (request_type payload) light_requests
    then 2
    else if request_type payload == "userRole"
    then 60
    else 20
request_weight (other kind) payload = 1

-- `responseLength`
unfoldable pub response_length : Json → ℕ
response_length (array js) = count_items js
response_length _ = 0

abbrev pub listed_responses : List String
listed_responses =
    "recentTrades" ∷ "historicalOrders" ∷ "userFills" ∷ "userFillsByTime" ∷ "fundingHistory"
    ∷ "userFunding" ∷ "nonUserFundingUpdates" ∷ "twapHistory" ∷ "userTwapSliceFills"
    ∷ "userTwapSliceFillsByTime" ∷ "delegatorHistory" ∷ "delegatorRewards" ∷ "validatorStats" ∷ []

info_response_weight : String → ℕ → ℕ
info_response_weight type items =
    if is_one_of type listed_responses
    then items / 20
    else if type == "candleSnapshot"
    then items / 60
    else 0

-- `ResponseWeight`
unfoldable pub response_weight : RequestKind → Json → Json → ℕ
unfolding info_response_weight
response_weight info payload response =
    info_response_weight (request_type payload) (response_length response)
response_weight explorer payload response =
    if request_type payload == "blockList" then response_length response else 0
response_weight _ payload response = 0
