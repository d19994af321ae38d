-- ===== src/Signing/Deploy/Registers.antt =====
-- The tuples of signing/deploy_actions.go and the payloads that register an asset. A struct without
-- a MarshalMsgpack of its own is encoded by its tags, field by field in the order of the struct, as
-- its JSON is.
use hypersdk_go.Json.{Json, boolean, number, text, array, object, nil, item, done, field}
use hypersdk_go.Prelude.Int.{pos}
use hypersdk_go.Prelude.Texts.{to_lower}
use hypersdk_go.Prelude.{ℕ, Bool, Option, String, List, [], ◌∷◌}
use hypersdk_go.Signing.Encoder.{
  Call, encode_map_len, encode_array_len, encode_string, encode_uint, encode_bool, encode_pairs,
  encode_pointer, json_pointer,
}
use hypersdk_go.Signing.Deploy.Checks.{Keyed}

abbrev pub encode_text : String → List Call
encode_text s = encode_string s ∷ []

abbrev pub encode_number : ℕ → List Call
encode_number n = encode_uint n ∷ []

abbrev pub json_number : ℕ → Json
json_number n = number (pos n)

-- `lowerAddressPtr`, then Encode.
abbrev pub encode_lower : String → List Call
encode_lower s = encode_string (to_lower s) ∷ []

abbrev pub json_lower : String → Json
json_lower s = text (to_lower s)

-- A tuple is an array of two.
unfoldable pub string_pair : Keyed String → List Call
string_pair p = encode_array_len 2 ∷ encode_string p.key ∷ encode_string p.value ∷ []

unfoldable pub string_pair_json : Keyed String → Json
string_pair_json p = array (item (text p.key) (item (text p.value) nil))

unfoldable pub string_uint_pair : Keyed ℕ → List Call
string_uint_pair p = encode_array_len 2 ∷ encode_string p.key ∷ encode_uint p.value ∷ []

unfoldable pub string_uint_pair_json : Keyed ℕ → Json
string_uint_pair_json p = array (item (text p.key) (item (number (pos p.value)) nil))

unfoldable pub string_bool_pair : Keyed Bool → List Call
string_bool_pair p = encode_array_len 2 ∷ encode_string p.key ∷ encode_bool p.value ∷ []

unfoldable pub string_bool_pair_json : Keyed Bool → Json
string_bool_pair_json p = array (item (text p.key) (item (boolean p.value) nil))

unfoldable pub coin_margin_mode : Keyed String → List Call
coin_margin_mode p = encode_array_len 2 ∷ encode_string p.key ∷ encode_string p.value ∷ []

unfoldable pub coin_margin_mode_json : Keyed String → Json
coin_margin_mode_json p = array (item (text p.key) (item (text p.value) nil))

pub record PerpDexSchemaInput : Type 0 where
  pub full_name : String
  pub collateral_token : ℕ
  pub oracle_updater : Option String

unfoldable pub perp_dex_schema_input : PerpDexSchemaInput → List Call
perp_dex_schema_input a =
    encode_map_len 3
    ∷ encode_pairs (
        ("fullName", encode_string a.full_name ∷ [])
        ∷ ("collateralToken", encode_uint a.collateral_token ∷ [])
        ∷ ("oracleUpdater", encode_pointer encode_lower a.oracle_updater)
        ∷ [])

unfoldable pub perp_dex_schema_input_json : PerpDexSchemaInput → Json
perp_dex_schema_input_json a = object (
    field "fullName" (text a.full_name) (
      field "collateralToken" (number (pos a.collateral_token))
        (field "oracleUpdater" (json_pointer json_lower a.oracle_updater) done)))

pub record RegisterAssetRequest : Type 0 where
  pub coin : String
  pub sz_decimals : ℕ
  pub oracle_px : String
  pub margin_table_id : ℕ
  pub only_isolated : Bool

unfoldable pub register_asset_request : RegisterAssetRequest → List Call
register_asset_request a =
    encode_map_len 5
    ∷ encode_pairs (
        ("coin", encode_string a.coin ∷ [])
        ∷ ("szDecimals", encode_uint a.sz_decimals ∷ [])
        ∷ ("oraclePx", encode_string a.oracle_px ∷ [])
        ∷ ("marginTableId", encode_uint a.margin_table_id ∷ [])
        ∷ ("onlyIsolated", encode_bool a.only_isolated ∷ [])
        ∷ [])

unfoldable pub register_asset_request_json : RegisterAssetRequest → Json
register_asset_request_json a = object (
    field "coin" (text a.coin) (
      field "szDecimals" (number (pos a.sz_decimals)) (
        field "oraclePx" (text a.oracle_px) (
          field "marginTableId" (number (pos a.margin_table_id))
            (field "onlyIsolated" (boolean a.only_isolated) done)))))

pub record RegisterAssetRequest2 : Type 0 where
  pub coin : String
  pub sz_decimals : ℕ
  pub oracle_px : String
  pub margin_table_id : ℕ
  pub margin_mode : String

unfoldable pub register_asset_request2 : RegisterAssetRequest2 → List Call
register_asset_request2 a =
    encode_map_len 5
    ∷ encode_pairs (
        ("coin", encode_string a.coin ∷ [])
        ∷ ("szDecimals", encode_uint a.sz_decimals ∷ [])
        ∷ ("oraclePx", encode_string a.oracle_px ∷ [])
        ∷ ("marginTableId", encode_uint a.margin_table_id ∷ [])
        ∷ ("marginMode", encode_string a.margin_mode ∷ [])
        ∷ [])

unfoldable pub register_asset_request2_json : RegisterAssetRequest2 → Json
register_asset_request2_json a = object (
    field "coin" (text a.coin) (
      field "szDecimals" (number (pos a.sz_decimals)) (
        field "oraclePx" (text a.oracle_px) (
          field "marginTableId" (number (pos a.margin_table_id))
            (field "marginMode" (text a.margin_mode) done)))))

-- `marshalRegisterAsset`: every key stays, also for nil values.
unfoldable pub marshal_register_asset :
    Option ℕ → List Call → String → Option PerpDexSchemaInput → List Call
marshal_register_asset max_gas asset_request dex schema =
    encode_map_len 4
    ∷ encode_pairs (
        ("maxGas", encode_pointer encode_number max_gas)
        ∷ ("assetRequest", asset_request)
        ∷ ("dex", encode_string dex ∷ [])
        ∷ ("schema", encode_pointer perp_dex_schema_input schema)
        ∷ [])

unfoldable pub register_asset_json : Option ℕ → Json → String → Option PerpDexSchemaInput → Json
register_asset_json max_gas asset_request dex schema = object (
    field "maxGas" (json_pointer json_number max_gas) (
      field "assetRequest" asset_request (
        field "dex" (text dex)
          (field "schema" (json_pointer perp_dex_schema_input_json schema) done))))

pub record RegisterAsset : Type 0 where
  pub max_gas : Option ℕ
  pub asset_request : RegisterAssetRequest
  pub dex : String
  pub schema : Option PerpDexSchemaInput

pub record RegisterAsset2 : Type 0 where
  pub max_gas : Option ℕ
  pub asset_request : RegisterAssetRequest2
  pub dex : String
  pub schema : Option PerpDexSchemaInput
