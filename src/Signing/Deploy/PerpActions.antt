-- ===== src/Signing/Deploy/PerpActions.antt =====
-- The perpDeploy union of signing/deploy_actions.go: the checks of each variant, its key and its
-- payload, and the action's two forms.
use hypersdk_go.Json.{Json, text, object, done, field}
use hypersdk_go.Prelude.{ℕ, Bool, Option, String, string_eq, nat_eq, List, ◌∷◌}
use hypersdk_go.Signing.Encoder.{Call, encode_map_len, encode_string, encode_slice, json_slice}
use hypersdk_go.Signing.Deploy.Checks.{Keyed}
use hypersdk_go.Signing.Deploy.Registers.{
  encode_text, string_pair, string_pair_json, string_uint_pair, string_uint_pair_json,
  string_bool_pair, string_bool_pair_json, coin_margin_mode, coin_margin_mode_json,
  register_asset_request, register_asset_request_json, register_asset_request2,
  register_asset_request2_json, marshal_register_asset, register_asset_json, RegisterAsset,
  RegisterAsset2,
}
use hypersdk_go.Signing.Deploy.Perps.{
  SetOracle, set_oracle, set_oracle_json, HaltTrading, halt_trading, halt_trading_json,
  InsertMarginTable, insert_margin_table, insert_margin_table_json, SetFeeRecipient,
  set_fee_recipient, set_fee_recipient_json, SetSubDeployers, set_sub_deployers,
  set_sub_deployers_json, SetFeeScale, set_fee_scale, set_fee_scale_json, SetPerpAnnotation,
  set_perp_annotation, set_perp_annotation_json,
}

pub data PerpDeployVariant : Type 0 where
  register_asset : RegisterAsset → PerpDeployVariant
  register_asset2 : RegisterAsset2 → PerpDeployVariant
  oracle : SetOracle → PerpDeployVariant
  funding_multipliers funding_interest_rates : Option (List (Keyed String)) → PerpDeployVariant
  halt : HaltTrading → PerpDeployVariant
  margin_table_ids open_interest_caps : Option (List (Keyed ℕ)) → PerpDeployVariant
  margin_table : InsertMarginTable → PerpDeployVariant
  fee_recipient : SetFeeRecipient → PerpDeployVariant
  sub_deployers : SetSubDeployers → PerpDeployVariant
  margin_modes : Option (List (Keyed String)) → PerpDeployVariant
  fee_scale : SetFeeScale → PerpDeployVariant
  growth_modes : Option (List (Keyed Bool)) → PerpDeployVariant
  perp_annotation : SetPerpAnnotation → PerpDeployVariant
  disable_dex : String → PerpDeployVariant

unfoldable pub perp_deploy_key : PerpDeployVariant → String
perp_deploy_key (register_asset a) = "registerAsset"
perp_deploy_key (register_asset2 a) = "registerAsset2"
perp_deploy_key (oracle a) = "setOracle"
perp_deploy_key (funding_multipliers values) = "setFundingMultipliers"
perp_deploy_key (funding_interest_rates values) = "setFundingInterestRates"
perp_deploy_key (halt a) = "haltTrading"
perp_deploy_key (margin_table_ids values) = "setMarginTableIds"
perp_deploy_key (open_interest_caps values) = "setOpenInterestCaps"
perp_deploy_key (margin_table a) = "insertMarginTable"
perp_deploy_key (fee_recipient a) = "setFeeRecipient"
perp_deploy_key (sub_deployers a) = "setSubDeployers"
perp_deploy_key (margin_modes values) = "setMarginModes"
perp_deploy_key (fee_scale a) = "setFeeScale"
perp_deploy_key (growth_modes values) = "setGrowthModes"
perp_deploy_key (perp_annotation a) = "setPerpAnnotation"
perp_deploy_key (disable_dex dex) = "disableDex"

unfoldable pub perp_variant : PerpDeployVariant → List Call
perp_variant (register_asset a) =
    marshal_register_asset a.max_gas (register_asset_request a.asset_request) a.dex a.schema
perp_variant (register_asset2 a) =
    marshal_register_asset a.max_gas (register_asset_request2 a.asset_request) a.dex a.schema
perp_variant (oracle a) = set_oracle a
perp_variant (funding_multipliers values) = encode_slice string_pair values
perp_variant (funding_interest_rates values) = encode_slice string_pair values
perp_variant (halt a) = halt_trading a
perp_variant (margin_table_ids values) = encode_slice string_uint_pair values
perp_variant (open_interest_caps values) = encode_slice string_uint_pair values
perp_variant (margin_table a) = insert_margin_table a
perp_variant (fee_recipient a) = set_fee_recipient a
perp_variant (sub_deployers a) = set_sub_deployers a
perp_variant (margin_modes values) = encode_slice coin_margin_mode values
perp_variant (fee_scale a) = set_fee_scale a
perp_variant (growth_modes values) = encode_slice string_bool_pair values
perp_variant (perp_annotation a) = set_perp_annotation a
perp_variant (disable_dex dex) = encode_text dex

unfoldable pub perp_variant_json : PerpDeployVariant → Json
perp_variant_json (register_asset a) =
    register_asset_json a.max_gas (register_asset_request_json a.asset_request) a.dex a.schema
perp_variant_json (register_asset2 a) =
    register_asset_json a.max_gas (register_asset_request2_json a.asset_request) a.dex a.schema
perp_variant_json (oracle a) = set_oracle_json a
perp_variant_json (funding_multipliers values) = json_slice string_pair_json values
perp_variant_json (funding_interest_rates values) = json_slice string_pair_json values
perp_variant_json (halt a) = halt_trading_json a
perp_variant_json (margin_table_ids values) = json_slice string_uint_pair_json values
perp_variant_json (open_interest_caps values) = json_slice string_uint_pair_json values
perp_variant_json (margin_table a) = insert_margin_table_json a
perp_variant_json (fee_recipient a) = set_fee_recipient_json a
perp_variant_json (sub_deployers a) = set_sub_deployers_json a
perp_variant_json (margin_modes values) = json_slice coin_margin_mode_json values
perp_variant_json (fee_scale a) = set_fee_scale_json a
perp_variant_json (growth_modes values) = json_slice string_bool_pair_json values
perp_variant_json (perp_annotation a) = set_perp_annotation_json a
perp_variant_json (disable_dex dex) = text dex

-- `marshalDeployJSON`, and the map that both MarshalMsgpack write: the kind, and the one variant.
abbrev pub deploy_calls : String → String → List Call → List Call
deploy_calls kind key payload =
    encode_map_len 2 ∷ encode_string "type" ∷ encode_string kind ∷ encode_string key ∷ payload

abbrev pub marshal_deploy_json : String → String → Json → Json
marshal_deploy_json kind key payload = object (field "type" (text kind) (field key payload done))
