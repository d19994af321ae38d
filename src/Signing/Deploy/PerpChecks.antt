-- ===== src/Signing/Deploy/PerpChecks.antt =====
-- validatePerpDeploy of each perpDeploy variant (signing/deploy_actions.go), and the action's two
-- forms.
use Prim.Native.String.{◌++◌ as ◌++ₛ◌}
use hypersdk_go.Json.{Json}
use hypersdk_go.Prelude.Decimals.{show_nat}
use hypersdk_go.Prelude.Texts.{to_lower, codes, trim_space}
use hypersdk_go.Prelude.{
  ℕ, ◌+◌, Bool, true, false, not, ◌&&◌, ◌||◌, Option, none, some, String, string_eq, nat_eq, ◌==◌,
  List, [], ◌∷◌, length, ltb, leb, Result, ok, err, ◌>>=◌,
}
use hypersdk_go.Signing.Encoder.{Call}
use hypersdk_go.Signing.Deploy.Checks.{
  Check, require, DecimalLibrary, text_lt, valid_dex, valid_coin, elements, check_all, Keyed,
  sorted_loop, valid_sorted_uint_pairs, valid_margin_mode, decimal_up_to, valid_coin_price,
  valid_sorted_decimal_pairs, valid_sorted_unsigned_decimal_pairs,
}
use hypersdk_go.Signing.Deploy.Registers.{
  PerpDexSchemaInput, RegisterAssetRequest, RegisterAssetRequest2,
}
use hypersdk_go.Signing.Deploy.Perps.{RawMarginTier, InsertMarginTable, SubDeployerInput}
use hypersdk_go.Signing.Deploy.PerpActions.{
  PerpDeployVariant, perp_deploy_key, perp_variant, perp_variant_json, deploy_calls,
  marshal_deploy_json, register_asset, register_asset2, oracle, funding_multipliers,
  funding_interest_rates, halt, margin_table_ids, open_interest_caps, margin_table, fee_recipient,
  sub_deployers, margin_modes, fee_scale, growth_modes, perp_annotation, disable_dex,
}

-- The loop over margin tiers: `first` is `i == 0`, and `prior` the tier before.
unfoldable pub check_tiers : Bool → RawMarginTier → List RawMarginTier → Check
check_tiers first prior [] = ok tt
check_tiers first prior (t ∷ ts) =
    let rest = check_tiers false t ts in
    do
      _ ← require (not (ltb t.max_leverage 1 || ltb 50 t.max_leverage)) "max leverage out of range"
      _ ←
          require
            (not (
              not first
              && (leb t.lower_bound prior.lower_bound || ltb prior.max_leverage t.max_leverage)))
            "margin tiers must increase lower bound and decrease max leverage"
      rest

abbrev no_tier : RawMarginTier
no_tier = record { lower_bound = 0; max_leverage = 0 }

unfoldable pub validate_margin_table : InsertMarginTable → Check
validate_margin_table a =
    let tiers = elements a.margin_table.margin_tiers in
    do
      _ ← valid_dex a.dex
      _ ←
          require (not (length tiers == 0 || ltb 3 (length tiers)))
            "margin table must contain one to three tiers"
      _ ←
          require (not (trim_space a.margin_table.description == ""))
            "margin table description is required"
      check_tiers true no_tier tiers

module _ (is_hex_address : String → Bool) where
  -- The loop over sub deployers, after a variant and a user.
  unfoldable pub check_sub_deployers : String → String → List SubDeployerInput → Check
  check_sub_deployers last_variant last_user [] = ok tt
  check_sub_deployers last_variant last_user (s ∷ others) =
      let user = to_lower s.user in
      let rest = check_sub_deployers s.variant user others in
      do
        _ ←
            require (not (trim_space s.variant == "" || not (is_hex_address s.user)))
              "sub deployer variant and address are required"
        _ ←
            require
              (not (
                not (last_variant == "")
                && (text_lt s.variant last_variant
                    || (s.variant == last_variant && not (text_lt last_user user)))))
              "sub deployers must be strictly sorted by variant and user"
        rest

  unfoldable pub validate_schema : PerpDexSchemaInput → Check
  validate_schema s = do
    _ ← require (not (trim_space s.full_name == "")) "perp dex full name is required"
    elim s.oracle_updater [
      | none ↦ ok tt
      | some updater ↦ require (is_hex_address updater) "oracle updater is not an address"
    ]

  abbrev validate_optional_schema : Option PerpDexSchemaInput → Check
  validate_optional_schema none = ok tt
  validate_optional_schema (some s) = validate_schema s

  module _ (library : DecimalLibrary) where
    unfoldable pub validate_register_request : RegisterAssetRequest → Check
    validate_register_request r = do
      _ ← valid_coin_price library r.coin r.oracle_px
      require (not (r.margin_table_id == 0)) "margin table ID must be non-zero"

    unfoldable pub validate_register_request2 : RegisterAssetRequest2 → Check
    validate_register_request2 r = do
      _ ← valid_coin_price library r.coin r.oracle_px
      _ ← require (not (r.margin_table_id == 0)) "margin table ID must be non-zero"
      require (valid_margin_mode r.margin_mode true) "invalid margin mode"

    -- The parse cannot fail once the list is valid; a failed parse would leave zero.
    abbrev rate_in_range : Keyed String → Check
    rate_in_range p = elim (library.new_from_string p.value) [
      | none ↦ ok tt
      | some d ↦
          require (not (library.greater_than (library.abs d) library.one_hundredth))
            "funding interest rate out of range"
    ]

    -- `fmt.Errorf("oracle prices: %w", err)`
    abbrev within : String → Check → Check
    within place (err problem) = err (place ++ₛ problem)
    within place (ok _) = ok tt

    abbrev check_mark_prices : ℕ → List (Option (List (Keyed String))) → Check
    check_mark_prices i [] = ok tt
    check_mark_prices i (prices ∷ others) =
        let rest = check_mark_prices (i + 1) others in
        do
          _ ←
              within ("mark prices " ++ₛ show_nat i ++ₛ ": ")
                (valid_sorted_unsigned_decimal_pairs library prices)
          rest

    unfoldable pub validate_perp_deploy : PerpDeployVariant → Check
    validate_perp_deploy (register_asset a) = do
      _ ← valid_dex a.dex
      _ ← validate_register_request a.asset_request
      validate_optional_schema a.schema
    validate_perp_deploy (register_asset2 a) = do
      _ ← valid_dex a.dex
      _ ← validate_register_request2 a.asset_request
      validate_optional_schema a.schema
    validate_perp_deploy (oracle a) = do
      _ ← valid_dex a.dex
      _ ← within "oracle prices: " (valid_sorted_unsigned_decimal_pairs library a.oracle_pxs)
      _ ←
          within "external perp prices: "
            (valid_sorted_unsigned_decimal_pairs library a.external_perp_pxs)
      check_mark_prices 0 (elements a.mark_pxs)
    validate_perp_deploy (funding_multipliers values) =
        valid_sorted_unsigned_decimal_pairs library values
    validate_perp_deploy (funding_interest_rates values) = do
      _ ← valid_sorted_decimal_pairs library values false
      check_all rate_in_range (elements values)
    validate_perp_deploy (halt a) = valid_coin a.coin
    validate_perp_deploy (margin_table_ids values) = do
      _ ← valid_sorted_uint_pairs values
      check_all (λ v. require (not (v.value == 0)) "margin table ID must be non-zero")
          (elements values)
    validate_perp_deploy (open_interest_caps values) = do
      _ ← valid_sorted_uint_pairs values
      check_all (λ v. require (not (v.value == 0)) "open interest cap must be positive")
          (elements values)
    validate_perp_deploy (margin_table a) = validate_margin_table a
    validate_perp_deploy (fee_recipient a) = do
      _ ← valid_dex a.dex
      require (is_hex_address a.fee_recipient) "fee recipient is not an address"
    validate_perp_deploy (sub_deployers a) = do
      _ ← valid_dex a.dex
      _ ← require (not (length (elements a.sub_deployers) == 0)) "sub deployers are required"
      check_sub_deployers "" "" (elements a.sub_deployers)
    validate_perp_deploy (margin_modes values) =
        sorted_loop
          (λ v.
            require (valid_margin_mode v.value false)
              "margin mode must be strictIsolated or noCross")
          "margin modes must be strictly sorted" "" (elements values)
    validate_perp_deploy (fee_scale a) = do
      _ ← valid_dex a.dex
      require (decimal_up_to library 3 a.scale) "fee scale must be between 0 and 3"
    validate_perp_deploy (growth_modes values) =
        sorted_loop (λ v. ok tt) "growth modes must be strictly sorted" "" (elements values)
    validate_perp_deploy (perp_annotation a) = do
      _ ← valid_coin a.coin
      _ ←
          require
            (not (ltb 15 (length (codes a.category)) || ltb 400 (length (codes a.description))))
            "annotation category or description exceeds protocol limit"
      check_all (λ k. require (not (trim_space k == "")) "annotation keyword is empty")
          (elements a.keywords)
    validate_perp_deploy (disable_dex dex) = valid_dex dex

    unfoldable pub perp_deploy_action : Option PerpDeployVariant → Result String (List Call)
    perp_deploy_action none = err "perpDeploy variant is required"
    perp_deploy_action (some variant) = validate_perp_deploy variant >>= λ _.
        ok (deploy_calls "perpDeploy" (perp_deploy_key variant) (perp_variant variant))

    unfoldable pub perp_deploy_action_json : Option PerpDeployVariant → Result String Json
    perp_deploy_action_json none = err "perpDeploy variant is required"
    perp_deploy_action_json (some variant) = validate_perp_deploy variant >>= λ _.
        ok (marshal_deploy_json "perpDeploy" (perp_deploy_key variant) (perp_variant_json variant))
