-- ===== src/Transport/Weights/Batches.antt =====
-- transport/weighted_rate_limit.go: what a batch costs, plain or wrapped in multi-signature
-- payloads.
use native.Mathlib.Nat.{zero-add, suc-add}
use hypersdk_go.Json.{Json, Fields, text, object, done, field, array, Items, get_field}
use hypersdk_go.Prelude.{
  ℕ, zero, suc, ◌+◌, ◌-◌, ◌/◌, ◌≡◌, ◌≤◌, ◌<◌, refl, ◌∙◌, ap, true, not, string_eq, nat_eq, ◌==◌,
  arith,
}
use hypersdk_go.Transport.Weights.{
  action, nested_batch_length, exchange_batch_field, batch_field_of, inner_action, batch_length,
  exchange_batch_length, request_weight,
}

-- A multi-signature action around an action.
abbrev pub multi_sig : Json → Json
multi_sig inner =
    object
      (field "type" (text "multiSig") (field "payload" (object (field "action" inner done)) done))

-- The action, wrapped a number of times.
abbrev pub wrapped : ℕ → Json → Json
wrapped zero inner = inner
wrapped (suc n) inner = multi_sig (wrapped n inner)

-- An exchange request with an action.
abbrev pub request_of : Json → Json
request_of body = object (field "action" body done)

-- An order action with a batch of orders.
abbrev pub order_action : Items → Json
order_action orders = object (field "type" (text "order") (field "orders" (array orders) done))

nested-multi_sig :
    (left : ℕ) (inner : Json)
    → nested_batch_length (suc left) (multi_sig inner) ≡ nested_batch_length left inner
unfolding nested_batch_length exchange_batch_field batch_field_of inner_action get_field
nested-multi_sig left inner = refl

nested-none : (body : Json) → nested_batch_length 0 body ≡ 0
unfolding nested_batch_length
nested-none body = refl

nested-wrapped :
    (n left : ℕ) (inner : Json)
    → nested_batch_length (n + left) (wrapped n inner) ≡ nested_batch_length left inner
nested-wrapped zero left inner = rw zero-add
nested-wrapped (suc n) left inner =
    rw (suc-add n left)
      (nested-multi_sig (n + left) (wrapped n inner) ∙ nested-wrapped n left inner)

wrapped-add : (n m : ℕ) (inner : Json) → wrapped (n + m) inner ≡ wrapped n (wrapped m inner)
wrapped-add zero m inner = rw zero-add
wrapped-add (suc n) m inner = rw (suc-add n m) (ap multi_sig (wrapped-add n m inner))

nested-batch :
    (left : ℕ) (fs : Fields)
    → not (exchange_batch_field fs == "") ≡ true
    → nested_batch_length (suc left) (object fs)
      ≡ batch_length (get_field (exchange_batch_field fs) fs)
unfolding nested_batch_length
nested-batch left fs h = rw h

request_weight-wrapped :
    (n : ℕ) (inner : Json)
    → request_weight action (request_of (wrapped n inner))
      ≡ 1 + nested_batch_length 8 (wrapped n inner) / 40
unfolding request_weight exchange_batch_length get_field
request_weight-wrapped n inner = refl

pub request_weight-multi_sig :
    (n : ℕ) (fs : Fields)
    → not (exchange_batch_field fs == "") ≡ true
    → (n < 8
        → request_weight action (request_of (wrapped n (object fs)))
          ≡ 1 + batch_length (get_field (exchange_batch_field fs) fs) / 40)
      × (8 ≤ n → request_weight action (request_of (wrapped n (object fs))) ≡ 1)
request_weight-multi_sig n fs h = (
  λ low.
      let e : 8 ≡ n + suc (7 - n) = omega arith in
      request_weight-wrapped n (object fs)
      ∙ ap (λ (k : ℕ). 1 + k / 40)
          (ap (λ (k : ℕ). nested_batch_length k (wrapped n (object fs))) e
            ∙ nested-wrapped n (suc (7 - n)) (object fs)
            ∙ nested-batch (7 - n) fs h),
  λ high.
      let e : n ≡ 8 + (n - 8) = omega arith in
      request_weight-wrapped n (object fs)
      ∙ ap (λ (k : ℕ). 1 + k / 40)
          (ap (λ (k : ℕ). nested_batch_length 8 (wrapped k (object fs))) e
            ∙ ap (nested_batch_length 8) (wrapped-add 8 (n - 8) (object fs))
            ∙ nested-wrapped 8 0 (wrapped (n - 8) (object fs))
            ∙ nested-none (wrapped (n - 8) (object fs))),
)
