-- ===== src/Signing/Deploy/Forms.antt =====
-- What the deployment actions of signing/deploy_actions.go sign is what they post.
use hypersdk_go.Json.{Json, count_items, text}
use hypersdk_go.Prelude.{ℕ, Bool, Option, String, List, refl, append-nil}
use hypersdk_go.Signing.Encoder.{Call, encode_slice, json_slice}
use hypersdk_go.Signing.Reader.{items-append, print}
use hypersdk_go.Signing.Agreement.{Agrees, pointer-Agrees, slice-Agrees}
use hypersdk_go.Signing.Deploy.Checks.{Keyed}
use hypersdk_go.Signing.Deploy.Registers.{
  encode_text, encode_number, json_number, encode_lower, json_lower, string_pair, string_pair_json,
  string_uint_pair, string_uint_pair_json, string_bool_pair, string_bool_pair_json,
  coin_margin_mode, coin_margin_mode_json, PerpDexSchemaInput, perp_dex_schema_input,
  perp_dex_schema_input_json, register_asset_request, register_asset_request_json,
  register_asset_request2, register_asset_request2_json, marshal_register_asset,
  register_asset_json,
}
use hypersdk_go.Signing.Deploy.Perps.{
  SetOracle, set_oracle, set_oracle_json, halt_trading, halt_trading_json, RawMarginTier,
  raw_margin_tier, raw_margin_tier_json, RawMarginTable, raw_margin_table, raw_margin_table_json,
  InsertMarginTable, insert_margin_table, insert_margin_table_json, set_fee_recipient,
  set_fee_recipient_json, SubDeployerInput, sub_deployer_input, sub_deployer_input_json,
  SetSubDeployers, set_sub_deployers, set_sub_deployers_json, set_fee_scale, set_fee_scale_json,
  SetPerpAnnotation, set_perp_annotation, set_perp_annotation_json,
}
use hypersdk_go.Signing.Deploy.PerpActions.{
  PerpDeployVariant, perp_variant, perp_variant_json, deploy_calls, marshal_deploy_json,
  register_asset, register_asset2, oracle, funding_multipliers, funding_interest_rates, halt,
  margin_table_ids, open_interest_caps, margin_table, fee_recipient, sub_deployers, margin_modes,
  fee_scale, growth_modes, perp_annotation, disable_dex,
}

-- A payload that agrees gives an action that agrees.
pub deploy-Agrees :
    (kind key : String) (payload : List Call) (j : Json)
    → Agrees payload j
    → Agrees (deploy_calls kind key payload) (marshal_deploy_json kind key j)
unfolding print
deploy-Agrees kind key payload j h = rw (h, append-nil)

string_pair-Agrees : (p : Keyed String) → Agrees (string_pair p) (string_pair_json p)
unfolding string_pair string_pair_json print count_items
string_pair-Agrees p = refl

pairs-Agrees :
    (values : Option (List (Keyed String)))
    → Agrees (encode_slice string_pair values) (json_slice string_pair_json values)
pairs-Agrees values = slice-Agrees string_pair string_pair_json values string_pair-Agrees

string_uint_pair-Agrees : (p : Keyed ℕ) → Agrees (string_uint_pair p) (string_uint_pair_json p)
unfolding string_uint_pair string_uint_pair_json print count_items
string_uint_pair-Agrees p = refl

uint_pairs-Agrees :
    (values : Option (List (Keyed ℕ)))
    → Agrees (encode_slice string_uint_pair values) (json_slice string_uint_pair_json values)
uint_pairs-Agrees values =
    slice-Agrees string_uint_pair string_uint_pair_json values string_uint_pair-Agrees

string_bool_pair-Agrees : (p : Keyed Bool) → Agrees (string_bool_pair p) (string_bool_pair_json p)
unfolding string_bool_pair string_bool_pair_json print count_items
string_bool_pair-Agrees p = refl

coin_margin_mode-Agrees : (p : Keyed String) → Agrees (coin_margin_mode p) (coin_margin_mode_json p)
unfolding coin_margin_mode coin_margin_mode_json print count_items
coin_margin_mode-Agrees p = refl

encode_text-Agrees : (s : String) → Agrees (encode_text s) (text s)
unfolding print
encode_text-Agrees s = refl

encode_number-Agrees : (n : ℕ) → Agrees (encode_number n) (json_number n)
unfolding print
encode_number-Agrees n = refl

schema-Agrees :
    (s : PerpDexSchemaInput) → Agrees (perp_dex_schema_input s) (perp_dex_schema_input_json s)
unfolding perp_dex_schema_input perp_dex_schema_input_json print
schema-Agrees s =
    simp (append-nil, pointer-Agrees encode_lower json_lower s.oracle_updater (λ _. refl)) refl

marshal_register_asset-Agrees :
    (max_gas : Option ℕ) (request : List Call) (j : Json) (dex : String)
    (schema : Option PerpDexSchemaInput)
    → Agrees request j
    → Agrees
        (marshal_register_asset max_gas request dex schema)
        (register_asset_json max_gas j dex schema)
unfolding marshal_register_asset register_asset_json print
marshal_register_asset-Agrees max_gas request j dex schema h =
    simp
      (
        items-append,
        append-nil,
        pointer-Agrees encode_number json_number max_gas encode_number-Agrees,
        h,
        pointer-Agrees perp_dex_schema_input perp_dex_schema_input_json schema schema-Agrees,
      )
      refl

set_oracle-Agrees : (a : SetOracle) → Agrees (set_oracle a) (set_oracle_json a)
unfolding set_oracle set_oracle_json print
set_oracle-Agrees a =
    simp
      (
        items-append,
        append-nil,
        pairs-Agrees a.oracle_pxs,
        slice-Agrees (encode_slice string_pair) (json_slice string_pair_json) a.mark_pxs
            pairs-Agrees,
        pairs-Agrees a.external_perp_pxs,
      )
      refl

raw_margin_tier-Agrees : (t : RawMarginTier) → Agrees (raw_margin_tier t) (raw_margin_tier_json t)
unfolding raw_margin_tier raw_margin_tier_json print
raw_margin_tier-Agrees t = refl

raw_margin_table-Agrees :
    (t : RawMarginTable) → Agrees (raw_margin_table t) (raw_margin_table_json t)
unfolding raw_margin_table raw_margin_table_json print
raw_margin_table-Agrees t =
    simp
      (
        append-nil,
        slice-Agrees raw_margin_tier raw_margin_tier_json t.margin_tiers raw_margin_tier-Agrees,
      )
      refl

insert_margin_table-Agrees :
    (a : InsertMarginTable) → Agrees (insert_margin_table a) (insert_margin_table_json a)
unfolding insert_margin_table insert_margin_table_json print
insert_margin_table-Agrees a = simp (append-nil, raw_margin_table-Agrees a.margin_table) refl

sub_deployer_input-Agrees :
    (s : SubDeployerInput) → Agrees (sub_deployer_input s) (sub_deployer_input_json s)
unfolding sub_deployer_input sub_deployer_input_json print
sub_deployer_input-Agrees s = refl

set_sub_deployers-Agrees :
    (a : SetSubDeployers) → Agrees (set_sub_deployers a) (set_sub_deployers_json a)
unfolding set_sub_deployers set_sub_deployers_json print
set_sub_deployers-Agrees a =
    simp
      (
        append-nil,
        slice-Agrees sub_deployer_input sub_deployer_input_json a.sub_deployers
            sub_deployer_input-Agrees,
      )
      refl

set_perp_annotation-Agrees :
    (a : SetPerpAnnotation) → Agrees (set_perp_annotation a) (set_perp_annotation_json a)
unfolding set_perp_annotation set_perp_annotation_json print
set_perp_annotation-Agrees a =
    simp
      (
        items-append,
        append-nil,
        pointer-Agrees encode_text text a.display_name encode_text-Agrees,
        slice-Agrees encode_text text a.keywords encode_text-Agrees,
      )
      refl

pub perp_variant-Agrees :
    (variant : PerpDeployVariant) → Agrees (perp_variant variant) (perp_variant_json variant)
unfolding perp_variant perp_variant_json register_asset_request register_asset_request_json
    register_asset_request2 register_asset_request2_json halt_trading halt_trading_json
    set_fee_recipient set_fee_recipient_json set_fee_scale set_fee_scale_json print
perp_variant-Agrees (register_asset a) =
    marshal_register_asset-Agrees a.max_gas _ _ a.dex a.schema refl
perp_variant-Agrees (register_asset2 a) =
    marshal_register_asset-Agrees a.max_gas _ _ a.dex a.schema refl
perp_variant-Agrees (oracle a) = set_oracle-Agrees a
perp_variant-Agrees (funding_multipliers values) = pairs-Agrees values
perp_variant-Agrees (funding_interest_rates values) = pairs-Agrees values
perp_variant-Agrees (halt a) = refl
perp_variant-Agrees (margin_table_ids values) = uint_pairs-Agrees values
perp_variant-Agrees (open_interest_caps values) = uint_pairs-Agrees values
perp_variant-Agrees (margin_table a) = insert_margin_table-Agrees a
perp_variant-Agrees (fee_recipient a) = refl
perp_variant-Agrees (sub_deployers a) = set_sub_deployers-Agrees a
perp_variant-Agrees (margin_modes values) =
    slice-Agrees coin_margin_mode coin_margin_mode_json values coin_margin_mode-Agrees
perp_variant-Agrees (fee_scale a) = refl
perp_variant-Agrees (growth_modes values) =
    slice-Agrees string_bool_pair string_bool_pair_json values string_bool_pair-Agrees
perp_variant-Agrees (perp_annotation a) = set_perp_annotation-Agrees a
perp_variant-Agrees (disable_dex dex) = refl
