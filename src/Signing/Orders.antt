-- ===== src/Signing/Orders.antt =====
-- The trading actions of signing/l1_action.go: what each MarshalMsgpack encodes and what each
-- MarshalJSON posts. A pointer field is an Option, and so is a slice, whose nil is `none`.
use hypersdk_go.Json.{Json, boolean, number, text, object, done, field}
use hypersdk_go.Prelude.Int.{ℤ, pos}
use hypersdk_go.Prelude.{ℕ, Bool, Option, String, List, [], ◌∷◌, ◌++◌}
use hypersdk_go.Signing.Encoder.{
  Call, encode_map_len, encode_string, encode_int, encode_uint, encode_bool, encode_pairs,
  encode_pointer, encode_slice, json_pointer, json_slice, plus_optional, optional_pair, omit_empty,
}

pub record CancelWire : Type 0 where
  pub asset : ℤ
  pub oid : ℕ

unfoldable pub cancel_wire : CancelWire → List Call
cancel_wire c =
    encode_map_len 2
    ∷ encode_string "a"
    ∷ encode_int c.asset
    ∷ encode_string "o"
    ∷ encode_uint c.oid
    ∷ []

unfoldable pub cancel_wire_json : CancelWire → Json
cancel_wire_json c = object (field "a" (number c.asset) (field "o" (number (pos c.oid)) done))

unfoldable pub cancel_action : Option (List CancelWire) → List Call
cancel_action cancels =
    encode_map_len 2
    ∷ encode_string "type"
    ∷ encode_string "cancel"
    ∷ encode_string "cancels"
    ∷ encode_slice cancel_wire cancels

unfoldable pub cancel_action_json : Option (List CancelWire) → Json
cancel_action_json cancels =
    object
      (field "type" (text "cancel") (field "cancels" (json_slice cancel_wire_json cancels) done))

pub record CancelByCloidWire : Type 0 where
  pub asset : ℤ
  pub cloid : String

unfoldable pub cancel_by_cloid_wire : CancelByCloidWire → List Call
cancel_by_cloid_wire c =
    encode_map_len 2
    ∷ encode_string "asset"
    ∷ encode_int c.asset
    ∷ encode_string "cloid"
    ∷ encode_string c.cloid
    ∷ []

unfoldable pub cancel_by_cloid_wire_json : CancelByCloidWire → Json
cancel_by_cloid_wire_json c =
    object (field "asset" (number c.asset) (field "cloid" (text c.cloid) done))

unfoldable pub cancel_by_cloid_action : Option (List CancelByCloidWire) → List Call
cancel_by_cloid_action cancels =
    encode_map_len 2
    ∷ encode_string "type"
    ∷ encode_string "cancelByCloid"
    ∷ encode_string "cancels"
    ∷ encode_slice cancel_by_cloid_wire cancels

unfoldable pub cancel_by_cloid_action_json : Option (List CancelByCloidWire) → Json
cancel_by_cloid_action_json cancels = object (
    field "type" (text "cancelByCloid")
      (field "cancels" (json_slice cancel_by_cloid_wire_json cancels) done))

pub record BuilderWire : Type 0 where
  pub address : String
  pub fee : ℕ

unfoldable pub builder_wire : BuilderWire → List Call
builder_wire b =
    encode_map_len 2
    ∷ encode_string "b"
    ∷ encode_string b.address
    ∷ encode_string "f"
    ∷ encode_uint b.fee
    ∷ []

unfoldable pub builder_wire_json : BuilderWire → Json
builder_wire_json b = object (field "b" (text b.address) (field "f" (number (pos b.fee)) done))

pub data OrderTypeWire : Type 0 where
  limit_order_type : String → OrderTypeWire
  trigger_order_type : Bool → String → String → OrderTypeWire

unfoldable pub order_type_wire : OrderTypeWire → List Call
order_type_wire (limit_order_type tif) =
    encode_map_len 1
    ∷ encode_string "limit"
    ∷ encode_map_len 1
    ∷ encode_string "tif"
    ∷ encode_string tif
    ∷ []
order_type_wire (trigger_order_type is_market trigger_px tpsl) =
    encode_map_len 1
    ∷ encode_string "trigger"
    ∷ encode_map_len 3
    ∷ encode_pairs (
        ("isMarket", encode_bool is_market ∷ [])
        ∷ ("triggerPx", encode_string trigger_px ∷ [])
        ∷ ("tpsl", encode_string tpsl ∷ [])
        ∷ [])

unfoldable pub order_type_wire_json : OrderTypeWire → Json
order_type_wire_json (limit_order_type tif) =
    object (field "limit" (object (field "tif" (text tif) done)) done)
order_type_wire_json (trigger_order_type is_market trigger_px tpsl) = object (
    field "trigger"
      (object (
        field "isMarket" (boolean is_market)
          (field "triggerPx" (text trigger_px) (field "tpsl" (text tpsl) done))))
      done)

pub record OrderWire : Type 0 where
  pub asset : ℤ
  pub is_buy : Bool
  pub price : String
  pub size : String
  pub reduce_only : Bool
  pub order_type : Option OrderTypeWire
  pub cloid : Option String

unfoldable pub order_wire : OrderWire → List Call
order_wire o =
    encode_map_len (plus_optional 6 o.cloid)
    ∷ (encode_pairs (
          ("a", encode_int o.asset ∷ [])
          ∷ ("b", encode_bool o.is_buy ∷ [])
          ∷ ("p", encode_string o.price ∷ [])
          ∷ ("s", encode_string o.size ∷ [])
          ∷ ("r", encode_bool o.reduce_only ∷ [])
          ∷ ("t", encode_pointer order_type_wire o.order_type)
          ∷ [])
        ++ optional_pair "c" (λ cloid. encode_string cloid ∷ []) o.cloid)

unfoldable pub order_wire_json : OrderWire → Json
order_wire_json o = object (
    field "a" (number o.asset) (
      field "b" (boolean o.is_buy) (
        field "p" (text o.price) (
          field "s" (text o.size) (
            field "r" (boolean o.reduce_only) (
              field "t" (json_pointer order_type_wire_json o.order_type)
                (omit_empty "c" text o.cloid)))))))

pub record OrderAction : Type 0 where
  pub orders : Option (List OrderWire)
  pub grouping : String
  pub builder : Option BuilderWire

unfoldable pub order_action : OrderAction → List Call
order_action a =
    encode_map_len (plus_optional 3 a.builder)
    ∷ (encode_pairs (
          ("type", encode_string "order" ∷ [])
          ∷ ("orders", encode_slice order_wire a.orders)
          ∷ ("grouping", encode_string a.grouping ∷ [])
          ∷ [])
        ++ optional_pair "builder" builder_wire a.builder)

unfoldable pub order_action_json : OrderAction → Json
order_action_json a = object (
    field "type" (text "order") (
      field "orders" (json_slice order_wire_json a.orders)
        (field "grouping" (text a.grouping) (omit_empty "builder" builder_wire_json a.builder))))
