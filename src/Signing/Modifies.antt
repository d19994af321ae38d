-- ===== src/Signing/Modifies.antt =====
-- The modify, dead man's switch and TWAP actions of signing/l1_action.go.
use hypersdk_go.Json.{Json, boolean, number, text, object, done, field}
use hypersdk_go.Prelude.Int.{ℤ, pos}
use hypersdk_go.Prelude.{ℕ, Bool, Option, none, some, String, List, [], ◌∷◌}
use hypersdk_go.Signing.Encoder.{
  Call, encode_map_len, encode_string, encode_int, encode_uint, encode_bool, encode_pairs,
  encode_compact_uint, encode_slice, json_slice, plus_optional, optional_pair, omit_empty,
}
use hypersdk_go.Signing.Orders.{OrderWire, order_wire, order_wire_json}

pub record ModifyWire : Type 0 where
  pub oid : ℕ
  pub cloid : Option String
  pub order : OrderWire

-- The order to modify goes by its client ID where there is one.
abbrev pub modified_id : Option String → ℕ → Call
modified_id (some cloid) oid = encode_string cloid
modified_id none oid = encode_uint oid

abbrev pub modified_id_json : Option String → ℕ → Json
modified_id_json (some cloid) oid = text cloid
modified_id_json none oid = number (pos oid)

unfoldable pub modify_wire : ModifyWire → List Call
modify_wire m =
    encode_map_len 2
    ∷ encode_string "oid"
    ∷ modified_id m.cloid m.oid
    ∷ encode_string "order"
    ∷ order_wire m.order

unfoldable pub modify_wire_json : ModifyWire → Json
modify_wire_json m =
    object
      (field "oid" (modified_id_json m.cloid m.oid) (field "order" (order_wire_json m.order) done))

unfoldable pub batch_modify_action : Option (List ModifyWire) → List Call
batch_modify_action modifies =
    encode_map_len 2
    ∷ encode_string "type"
    ∷ encode_string "batchModify"
    ∷ encode_string "modifies"
    ∷ encode_slice modify_wire modifies

unfoldable pub batch_modify_action_json : Option (List ModifyWire) → Json
batch_modify_action_json modifies = object (
    field "type" (text "batchModify")
      (field "modifies" (json_slice modify_wire_json modifies) done))

unfoldable pub schedule_cancel_action : Option ℕ → List Call
schedule_cancel_action time =
    encode_map_len (plus_optional 1 time)
    ∷ encode_string "type"
    ∷ encode_string "scheduleCancel"
    ∷ optional_pair "time" (λ t. encode_uint t ∷ []) time

unfoldable pub schedule_cancel_action_json : Option ℕ → Json
schedule_cancel_action_json time =
    object (field "type" (text "scheduleCancel") (omit_empty "time" (λ t. number (pos t)) time))

pub record TwapWire : Type 0 where
  pub asset : ℤ
  pub is_buy : Bool
  pub size : String
  pub reduce_only : Bool
  pub minutes : ℕ
  pub randomize : Bool

unfoldable pub twap_wire : TwapWire → List Call
twap_wire t =
    encode_map_len 6
    ∷ encode_pairs (
        ("a", encode_int t.asset ∷ [])
        ∷ ("b", encode_bool t.is_buy ∷ [])
        ∷ ("s", encode_string t.size ∷ [])
        ∷ ("r", encode_bool t.reduce_only ∷ [])
        ∷ ("m", encode_compact_uint t.minutes ∷ [])
        ∷ ("t", encode_bool t.randomize ∷ [])
        ∷ [])

unfoldable pub twap_wire_json : TwapWire → Json
twap_wire_json t = object (
    field "a" (number t.asset) (
      field "b" (boolean t.is_buy) (
        field "s" (text t.size) (
          field "r" (boolean t.reduce_only)
            (field "m" (number (pos t.minutes)) (field "t" (boolean t.randomize) done))))))

unfoldable pub twap_order_action : TwapWire → List Call
twap_order_action twap =
    encode_map_len 2
    ∷ encode_string "type"
    ∷ encode_string "twapOrder"
    ∷ encode_string "twap"
    ∷ twap_wire twap

unfoldable pub twap_order_action_json : TwapWire → Json
twap_order_action_json twap =
    object (field "type" (text "twapOrder") (field "twap" (twap_wire_json twap) done))

unfoldable pub twap_cancel_action : ℤ → ℕ → List Call
twap_cancel_action asset twap_id =
    encode_map_len 3
    ∷ encode_pairs (
        ("type", encode_string "twapCancel" ∷ [])
        ∷ ("a", encode_int asset ∷ [])
        ∷ ("t", encode_compact_uint twap_id ∷ [])
        ∷ [])

unfoldable pub twap_cancel_action_json : ℤ → ℕ → Json
twap_cancel_action_json asset twap_id = object (
    field "type" (text "twapCancel")
      (field "a" (number asset) (field "t" (number (pos twap_id)) done)))
