-- ===== src/Signing/Trading.antt =====
-- What the trading actions of signing/l1_action.go sign is what they post.
use hypersdk_go.Json.{text}
use hypersdk_go.Prelude.{
  Option, none, some, List, refl, append-nil, append_assoc, ℕ, [], ◌∷◌, String,
}
use hypersdk_go.Signing.Encoder.{encode_string}
use hypersdk_go.Signing.Reader.{items-append, print}
use hypersdk_go.Signing.Agreement.{
  Agrees, pointer-Agrees, slice-Agrees, plus_optional-count, optional_pair-Agrees,
  item_of-encode_compact_uint,
}
use hypersdk_go.Prelude.Int.{ℤ}
use hypersdk_go.Signing.Modifies.{
  ModifyWire, modify_wire, modify_wire_json, modified_id, modified_id_json, batch_modify_action,
  batch_modify_action_json, schedule_cancel_action, schedule_cancel_action_json, TwapWire,
  twap_wire, twap_wire_json, twap_order_action, twap_order_action_json, twap_cancel_action,
  twap_cancel_action_json,
}
use hypersdk_go.Signing.Orders.{
  CancelWire, cancel_wire, cancel_wire_json, cancel_action, cancel_action_json, CancelByCloidWire,
  cancel_by_cloid_wire, cancel_by_cloid_wire_json, cancel_by_cloid_action,
  cancel_by_cloid_action_json, builder_wire, builder_wire_json, OrderTypeWire, order_type_wire,
  order_type_wire_json, limit_order_type, trigger_order_type, OrderWire, order_wire,
  order_wire_json, BuilderWire, OrderAction, order_action, order_action_json,
}

cancel_wire-Agrees : (c : CancelWire) → Agrees (cancel_wire c) (cancel_wire_json c)
unfolding cancel_wire cancel_wire_json print
cancel_wire-Agrees c = refl

pub cancel_action-Agrees :
    (cancels : Option (List CancelWire))
    → Agrees (cancel_action cancels) (cancel_action_json cancels)
unfolding cancel_action cancel_action_json print
cancel_action-Agrees cancels =
    rw (slice-Agrees cancel_wire cancel_wire_json cancels cancel_wire-Agrees, append-nil)

order_type_wire-Agrees : (t : OrderTypeWire) → Agrees (order_type_wire t) (order_type_wire_json t)
unfolding order_type_wire order_type_wire_json print
order_type_wire-Agrees (limit_order_type tif) = refl
order_type_wire-Agrees (trigger_order_type is_market trigger_px tpsl) = refl

cancel_by_cloid_wire-Agrees :
    (c : CancelByCloidWire) → Agrees (cancel_by_cloid_wire c) (cancel_by_cloid_wire_json c)
unfolding cancel_by_cloid_wire cancel_by_cloid_wire_json print
cancel_by_cloid_wire-Agrees c = refl

pub cancel_by_cloid_action-Agrees :
    (cancels : Option (List CancelByCloidWire))
    → Agrees (cancel_by_cloid_action cancels) (cancel_by_cloid_action_json cancels)
unfolding cancel_by_cloid_action cancel_by_cloid_action_json print
cancel_by_cloid_action-Agrees cancels = rw (
  slice-Agrees cancel_by_cloid_wire cancel_by_cloid_wire_json cancels cancel_by_cloid_wire-Agrees,
  append-nil,
)

builder_wire-Agrees : (b : BuilderWire) → Agrees (builder_wire b) (builder_wire_json b)
unfolding builder_wire builder_wire_json print
builder_wire-Agrees b = refl

pub order_wire-Agrees : (o : OrderWire) → Agrees (order_wire o) (order_wire_json o)
unfolding order_wire order_wire_json print
order_wire-Agrees o = simp (
  items-append,
  append-nil,
  pointer-Agrees order_type_wire order_type_wire_json o.order_type order_type_wire-Agrees,
  plus_optional-count "c" (λ c. encode_string c ∷ []) text 6 o.cloid,
  optional_pair-Agrees "c" (λ c. encode_string c ∷ []) text o.cloid (λ c. refl),
)

pub order_action-Agrees : (a : OrderAction) → Agrees (order_action a) (order_action_json a)
unfolding order_action order_action_json print
order_action-Agrees a =
    simp
      (
        items-append,
        append-nil,
        append_assoc,
        slice-Agrees order_wire order_wire_json a.orders order_wire-Agrees,
        plus_optional-count "builder" builder_wire builder_wire_json 3 a.builder,
        optional_pair-Agrees "builder" builder_wire builder_wire_json a.builder builder_wire-Agrees,
      )
      refl

modified_id-Agrees :
    (cloid : Option String) (oid : ℕ)
    → Agrees (modified_id cloid oid ∷ []) (modified_id_json cloid oid)
unfolding print
modified_id-Agrees none oid = refl
modified_id-Agrees (some c) oid = refl

modify_wire-Agrees : (m : ModifyWire) → Agrees (modify_wire m) (modify_wire_json m)
unfolding modify_wire modify_wire_json print
modify_wire-Agrees m =
    rw (order_wire-Agrees m.order, ← modified_id-Agrees m.cloid m.oid, append-nil)

pub batch_modify_action-Agrees :
    (modifies : Option (List ModifyWire))
    → Agrees (batch_modify_action modifies) (batch_modify_action_json modifies)
unfolding batch_modify_action batch_modify_action_json print
batch_modify_action-Agrees modifies =
    rw (slice-Agrees modify_wire modify_wire_json modifies modify_wire-Agrees, append-nil)

pub schedule_cancel_action-Agrees :
    (time : Option ℕ) → Agrees (schedule_cancel_action time) (schedule_cancel_action_json time)
unfolding schedule_cancel_action schedule_cancel_action_json print
schedule_cancel_action-Agrees none = refl
schedule_cancel_action-Agrees (some t) = refl

twap_wire-Agrees : (t : TwapWire) → Agrees (twap_wire t) (twap_wire_json t)
unfolding twap_wire twap_wire_json print
twap_wire-Agrees t = rw (item_of-encode_compact_uint t.minutes)

pub twap_order_action-Agrees :
    (t : TwapWire) → Agrees (twap_order_action t) (twap_order_action_json t)
unfolding twap_order_action twap_order_action_json print
twap_order_action-Agrees t = rw (twap_wire-Agrees t, append-nil)

pub twap_cancel_action-Agrees :
    (asset : ℤ) (twap_id : ℕ)
    → Agrees (twap_cancel_action asset twap_id) (twap_cancel_action_json asset twap_id)
unfolding twap_cancel_action twap_cancel_action_json print
twap_cancel_action-Agrees asset twap_id = rw (item_of-encode_compact_uint twap_id)
