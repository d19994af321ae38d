-- ===== src/Transport/Weights/Examples.antt =====
-- transport/weighted_rate_limit.go: weights of payloads.
use hypersdk_go.Json.{
  Json, Items, Fields, null, text, array, object, done, field, nil, item, count_items, get_field,
}
use hypersdk_go.Prelude.{ℕ, zero, suc, ◌+◌, ◌/◌, ◌≡◌, ◌≤◌, ◌<◌, refl, not, true, string_eq, ◌==◌}
use hypersdk_go.Transport.Weights.{
  info, action, request_type, nested_batch_length, exchange_batch_field, batch_field_of,
  inner_action, batch_length, exchange_batch_length, request_weight, response_weight,
  response_length, first_present, is_one_of,
}
use hypersdk_go.Transport.Weights.Batches.{wrapped, request_of, request_weight-multi_sig}

runs : Unit {0}
unfolding request_type nested_batch_length exchange_batch_field batch_field_of inner_action
    batch_length exchange_batch_length request_weight response_weight response_length first_present
    is_one_of count_items get_field
runs = tt

copies : ℕ → Items
copies zero = nil
copies (suc n) = item null (copies n)

abbrev eighty : Fields
eighty = field "type" (text "order") (field "orders" (array (copies 80)) done)

eighty_weight : request_weight action (request_of (object eighty)) ≡ 3
unfolding runs copies
eighty_weight = refl

abbrev user_role : Json
user_role = object (field "type" (text "userRole") done)

user_role_weight : request_weight info user_role ≡ 60
unfolding runs
user_role_weight = refl

eighty_is_batch : not (exchange_batch_field eighty == "") ≡ true
unfolding runs
eighty_is_batch = refl

request_weight-multi_sig_example :
    (2 < 8
      → request_weight action (request_of (wrapped 2 (object eighty)))
        ≡ 1 + batch_length (get_field (exchange_batch_field eighty) eighty) / 40)
    × (8 ≤ 2 → request_weight action (request_of (wrapped 2 (object eighty))) ≡ 1)
request_weight-multi_sig_example = request_weight-multi_sig 2 eighty eighty_is_batch

abbrev fills : Json
fills = object (field "type" (text "userFills") done)
