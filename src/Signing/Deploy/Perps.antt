-- ===== src/Signing/Deploy/Perps.antt =====
-- The payloads of the other perpDeploy variants (signing/deploy_actions.go), encoded by their tags
-- where they have no MarshalMsgpack of their own.
use hypersdk_go.Json.{Json, boolean, number, text, object, done, field}
use hypersdk_go.Prelude.Int.{pos}
use hypersdk_go.Prelude.Texts.{to_lower}
use hypersdk_go.Prelude.{ℕ, Bool, Option, String, List, [], ◌∷◌}
use hypersdk_go.Signing.Encoder.{
  Call, encode_map_len, encode_string, encode_uint, encode_bool, encode_pairs, encode_pointer,
  encode_slice, json_pointer, json_slice,
}
use hypersdk_go.Signing.Deploy.Checks.{Keyed}
use hypersdk_go.Signing.Deploy.Registers.{string_pair, string_pair_json, encode_text}

pub record SetOracle : Type 0 where
  pub dex : String
  pub oracle_pxs : Option (List (Keyed String))
  pub mark_pxs : Option (List (Option (List (Keyed String))))
  pub external_perp_pxs : Option (List (Keyed String))

unfoldable pub set_oracle : SetOracle → List Call
set_oracle a =
    encode_map_len 4
    ∷ encode_pairs (
        ("dex", encode_string a.dex ∷ [])
        ∷ ("oraclePxs", encode_slice string_pair a.oracle_pxs)
        ∷ ("markPxs", encode_slice (encode_slice string_pair) a.mark_pxs)
        ∷ ("externalPerpPxs", encode_slice string_pair a.external_perp_pxs)
        ∷ [])

unfoldable pub set_oracle_json : SetOracle → Json
set_oracle_json a = object (
    field "dex" (text a.dex) (
      field "oraclePxs" (json_slice string_pair_json a.oracle_pxs) (
        field "markPxs" (json_slice (json_slice string_pair_json) a.mark_pxs)
          (field "externalPerpPxs" (json_slice string_pair_json a.external_perp_pxs) done))))

pub record HaltTrading : Type 0 where
  pub coin : String
  pub is_halted : Bool

unfoldable pub halt_trading : HaltTrading → List Call
halt_trading a =
    encode_map_len 2
    ∷ encode_pairs
        (("coin", encode_string a.coin ∷ []) ∷ ("isHalted", encode_bool a.is_halted ∷ []) ∷ [])

unfoldable pub halt_trading_json : HaltTrading → Json
halt_trading_json a =
    object (field "coin" (text a.coin) (field "isHalted" (boolean a.is_halted) done))

pub record RawMarginTier : Type 0 where
  pub lower_bound : ℕ
  pub max_leverage : ℕ

unfoldable pub raw_margin_tier : RawMarginTier → List Call
raw_margin_tier a =
    encode_map_len 2
    ∷ encode_pairs (
        ("lowerBound", encode_uint a.lower_bound ∷ [])
        ∷ ("maxLeverage", encode_uint a.max_leverage ∷ [])
        ∷ [])

unfoldable pub raw_margin_tier_json : RawMarginTier → Json
raw_margin_tier_json a = object (
    field "lowerBound" (number (pos a.lower_bound))
      (field "maxLeverage" (number (pos a.max_leverage)) done))

pub record RawMarginTable : Type 0 where
  pub description : String
  pub margin_tiers : Option (List RawMarginTier)

unfoldable pub raw_margin_table : RawMarginTable → List Call
raw_margin_table a =
    encode_map_len 2
    ∷ encode_pairs (
        ("description", encode_string a.description ∷ [])
        ∷ ("marginTiers", encode_slice raw_margin_tier a.margin_tiers)
        ∷ [])

unfoldable pub raw_margin_table_json : RawMarginTable → Json
raw_margin_table_json a = object (
    field "description" (text a.description)
      (field "marginTiers" (json_slice raw_margin_tier_json a.margin_tiers) done))

pub record InsertMarginTable : Type 0 where
  pub dex : String
  pub margin_table : RawMarginTable

unfoldable pub insert_margin_table : InsertMarginTable → List Call
insert_margin_table a =
    encode_map_len 2
    ∷ encode_pairs
        (("dex", encode_string a.dex ∷ []) ∷ ("marginTable", raw_margin_table a.margin_table) ∷ [])

unfoldable pub insert_margin_table_json : InsertMarginTable → Json
insert_margin_table_json a =
    object
      (field "dex" (text a.dex) (field "marginTable" (raw_margin_table_json a.margin_table) done))

pub record SetFeeRecipient : Type 0 where
  pub dex : String
  pub fee_recipient : String

unfoldable pub set_fee_recipient : SetFeeRecipient → List Call
set_fee_recipient a =
    encode_map_len 2
    ∷ encode_pairs (
        ("dex", encode_string a.dex ∷ [])
        ∷ ("feeRecipient", encode_string (to_lower a.fee_recipient) ∷ [])
        ∷ [])

unfoldable pub set_fee_recipient_json : SetFeeRecipient → Json
set_fee_recipient_json a =
    object (field "dex" (text a.dex) (field "feeRecipient" (text (to_lower a.fee_recipient)) done))

pub record SubDeployerInput : Type 0 where
  pub variant : String
  pub user : String
  pub allowed : Bool

unfoldable pub sub_deployer_input : SubDeployerInput → List Call
sub_deployer_input a =
    encode_map_len 3
    ∷ encode_pairs (
        ("variant", encode_string a.variant ∷ [])
        ∷ ("user", encode_string (to_lower a.user) ∷ [])
        ∷ ("allowed", encode_bool a.allowed ∷ [])
        ∷ [])

unfoldable pub sub_deployer_input_json : SubDeployerInput → Json
sub_deployer_input_json a = object (
    field "variant" (text a.variant)
      (field "user" (text (to_lower a.user)) (field "allowed" (boolean a.allowed) done)))

pub record SetSubDeployers : Type 0 where
  pub dex : String
  pub sub_deployers : Option (List SubDeployerInput)

unfoldable pub set_sub_deployers : SetSubDeployers → List Call
set_sub_deployers a =
    encode_map_len 2
    ∷ encode_pairs (
        ("dex", encode_string a.dex ∷ [])
        ∷ ("subDeployers", encode_slice sub_deployer_input a.sub_deployers)
        ∷ [])

unfoldable pub set_sub_deployers_json : SetSubDeployers → Json
set_sub_deployers_json a = object (
    field "dex" (text a.dex)
      (field "subDeployers" (json_slice sub_deployer_input_json a.sub_deployers) done))

pub record SetFeeScale : Type 0 where
  pub dex : String
  pub scale : String

unfoldable pub set_fee_scale : SetFeeScale → List Call
set_fee_scale a =
    encode_map_len 2
    ∷ encode_pairs (("dex", encode_string a.dex ∷ []) ∷ ("scale", encode_string a.scale ∷ []) ∷ [])

unfoldable pub set_fee_scale_json : SetFeeScale → Json
set_fee_scale_json a = object (field "dex" (text a.dex) (field "scale" (text a.scale) done))

pub record SetPerpAnnotation : Type 0 where
  pub coin : String
  pub category : String
  pub description : String
  pub display_name : Option String
  pub keywords : Option (List String)

unfoldable pub set_perp_annotation : SetPerpAnnotation → List Call
set_perp_annotation a =
    encode_map_len 5
    ∷ encode_pairs (
        ("coin", encode_string a.coin ∷ [])
        ∷ ("category", encode_string a.category ∷ [])
        ∷ ("description", encode_string a.description ∷ [])
        ∷ ("displayName", encode_pointer encode_text a.display_name)
        ∷ ("keywords", encode_slice encode_text a.keywords)
        ∷ [])

unfoldable pub set_perp_annotation_json : SetPerpAnnotation → Json
set_perp_annotation_json a = object (
    field "coin" (text a.coin) (
      field "category" (text a.category) (
        field "description" (text a.description) (
          field "displayName" (json_pointer text a.display_name)
            (field "keywords" (json_slice text a.keywords) done)))))
