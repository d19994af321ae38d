-- ===== src/Signing/Deploy/SpotActions.antt =====
-- The spotDeploy union of signing/deploy_actions.go: validateSpotDeploy of each variant, its key
-- and its payload, and the action's two forms.
use Prim.Native.Char.{code}
use hypersdk_go.Json.{Json}
use hypersdk_go.Prelude.Int.{pos, negsuc, leb_ℤ}
use hypersdk_go.Prelude.Texts.{trim_space}
use hypersdk_go.Prelude.{
  Bool, not, ◌&&◌, ◌||◌, Option, none, some, String, string_eq, nat_eq, ◌==◌, List, if◌then◌else◌,
  Result, ok, err, ◌>>=◌,
}
use hypersdk_go.Signing.Encoder.{Call}
use hypersdk_go.Signing.Deploy.Checks.{
  Check, require, DecimalLibrary, elements, check_all, positive_decimal, unsigned_decimal,
  decimal_up_to,
}
use hypersdk_go.Signing.Deploy.PerpActions.{deploy_calls, marshal_deploy_json}
use hypersdk_go.Signing.Deploy.Spots.{
  RegisterToken2, register_token2, register_token2_json, UserGenesis, user_genesis,
  user_genesis_json, Genesis, genesis, genesis_json, RegisterSpot, register_spot,
  register_spot_json, RegisterHyperliquidity, register_hyperliquidity, register_hyperliquidity_json,
  SetDeployerTradingFeeShare, set_deployer_trading_fee_share, set_deployer_trading_fee_share_json,
  QuoteToken, quote_token, quote_token_json, RequestEvmContract, request_evm_contract,
  request_evm_contract_json, FreezeUser, freeze_user, freeze_user_json,
}

pub data SpotDeployVariant : Type 0 where
  token2 : RegisterToken2 → SpotDeployVariant
  users : UserGenesis → SpotDeployVariant
  supply : Genesis → SpotDeployVariant
  spot_pair : RegisterSpot → SpotDeployVariant
  hyperliquidity : RegisterHyperliquidity → SpotDeployVariant
  fee_share : SetDeployerTradingFeeShare → SpotDeployVariant
  enable_quote disable_quote enable_aligned_quote : QuoteToken → SpotDeployVariant
  enable_freeze revoke_freeze : QuoteToken → SpotDeployVariant
  evm_contract : RequestEvmContract → SpotDeployVariant
  freeze_one : FreezeUser → SpotDeployVariant

unfoldable pub spot_deploy_key : SpotDeployVariant → String
spot_deploy_key (token2 a) = "registerToken2"
spot_deploy_key (users a) = "userGenesis"
spot_deploy_key (supply a) = "genesis"
spot_deploy_key (spot_pair a) = "registerSpot"
spot_deploy_key (hyperliquidity a) = "registerHyperliquidity"
spot_deploy_key (fee_share a) = "setDeployerTradingFeeShare"
spot_deploy_key (enable_quote a) = "enableQuoteToken"
spot_deploy_key (disable_quote a) = "disableQuoteToken"
spot_deploy_key (enable_aligned_quote a) = "enableAlignedQuoteToken"
spot_deploy_key (enable_freeze a) = "enableFreezePrivilege"
spot_deploy_key (revoke_freeze a) = "revokeFreezePrivilege"
spot_deploy_key (evm_contract a) = "requestEvmContract"
spot_deploy_key (freeze_one a) = "freezeUser"

unfoldable pub spot_variant : SpotDeployVariant → List Call
spot_variant (token2 a) = register_token2 a
spot_variant (users a) = user_genesis a
spot_variant (supply a) = genesis a
spot_variant (spot_pair a) = register_spot a
spot_variant (hyperliquidity a) = register_hyperliquidity a
spot_variant (fee_share a) = set_deployer_trading_fee_share a
spot_variant (enable_quote a) = quote_token a
spot_variant (disable_quote a) = quote_token a
spot_variant (enable_aligned_quote a) = quote_token a
spot_variant (enable_freeze a) = quote_token a
spot_variant (revoke_freeze a) = quote_token a
spot_variant (evm_contract a) = request_evm_contract a
spot_variant (freeze_one a) = freeze_user a

unfoldable pub spot_variant_json : SpotDeployVariant → Json
spot_variant_json (token2 a) = register_token2_json a
spot_variant_json (users a) = user_genesis_json a
spot_variant_json (supply a) = genesis_json a
spot_variant_json (spot_pair a) = register_spot_json a
spot_variant_json (hyperliquidity a) = register_hyperliquidity_json a
spot_variant_json (fee_share a) = set_deployer_trading_fee_share_json a
spot_variant_json (enable_quote a) = quote_token_json a
spot_variant_json (disable_quote a) = quote_token_json a
spot_variant_json (enable_aligned_quote a) = quote_token_json a
spot_variant_json (enable_freeze a) = quote_token_json a
spot_variant_json (revoke_freeze a) = quote_token_json a
spot_variant_json (evm_contract a) = request_evm_contract_json a
spot_variant_json (freeze_one a) = freeze_user_json a

-- What stands before a final percent sign, if there is one (`strings.HasSuffix`,
-- `strings.TrimSuffix`).
abbrev before_percent : String → Option String
before_percent String.[] = none
before_percent (String.◌∷◌ c s) =
    let rest = before_percent s in
    elim rest [
      | some before ↦ some (String.◌∷◌ c before)
      | none ↦ if (code c == 37) && (s == "") then some "" else none
    ]

module _ (is_hex_address : String → Bool) (library : DecimalLibrary) where
  unfoldable pub validate_user_genesis : UserGenesis → Check
  validate_user_genesis a = do
    _ ←
        check_all
          (λ p.
            require (not (not (is_hex_address p.user) || not (unsigned_decimal library p.wei)))
              "invalid user genesis allocation")
          (elements a.user_and_wei)
    _ ←
        check_all
          (λ p.
            require (unsigned_decimal library p.wei) "invalid existing token genesis allocation")
          (elements a.existing_token_and_wei)
    check_all (λ p. require (is_hex_address p.user) "invalid blacklist address")
        (elements a.blacklist_users)

  unfoldable pub validate_fee_share : SetDeployerTradingFeeShare → Check
  validate_fee_share a = elim (before_percent a.share) [
    | none ↦ err "fee share must be a percentage string"
    | some share ↦ require (decimal_up_to library 100 share) "fee share must be between 0% and 100%"
  ]

  unfoldable pub validate_evm_contract : RequestEvmContract → Check
  validate_evm_contract a = do
    _ ← require (is_hex_address a.address) "EVM contract address is invalid"
    require (leb_ℤ (negsuc 1) a.evm_extra_wei_decimals && leb_ℤ a.evm_extra_wei_decimals (pos 18))
        "EVM extra wei decimals must be between -2 and 18"

  unfoldable pub validate_spot_deploy : SpotDeployVariant → Check
  validate_spot_deploy (token2 a) =
      require (not (trim_space a.spec.name == "")) "token name is required"
  validate_spot_deploy (users a) = validate_user_genesis a
  validate_spot_deploy (supply a) =
      require (unsigned_decimal library a.max_supply)
        "max supply must be an unsigned decimal string"
  validate_spot_deploy (spot_pair a) =
      require (not (a.base_token == a.quote_token)) "base and quote token must differ"
  validate_spot_deploy (hyperliquidity a) =
      require (positive_decimal library a.start_px && positive_decimal library a.order_sz)
        "start price and order size must be positive decimal strings"
  validate_spot_deploy (fee_share a) = validate_fee_share a
  validate_spot_deploy (enable_quote a) = ok tt
  validate_spot_deploy (disable_quote a) = ok tt
  validate_spot_deploy (enable_aligned_quote a) = ok tt
  validate_spot_deploy (enable_freeze a) = ok tt
  validate_spot_deploy (revoke_freeze a) = ok tt
  validate_spot_deploy (evm_contract a) = validate_evm_contract a
  validate_spot_deploy (freeze_one a) =
      require (is_hex_address a.user) "freeze user is not an address"

  unfoldable pub spot_deploy_action : Option SpotDeployVariant → Result String (List Call)
  spot_deploy_action none = err "spotDeploy variant is required"
  spot_deploy_action (some variant) = validate_spot_deploy variant >>= λ _.
      ok (deploy_calls "spotDeploy" (spot_deploy_key variant) (spot_variant variant))

  unfoldable pub spot_deploy_action_json : Option SpotDeployVariant → Result String Json
  spot_deploy_action_json none = err "spotDeploy variant is required"
  spot_deploy_action_json (some variant) = validate_spot_deploy variant >>= λ _.
      ok (marshal_deploy_json "spotDeploy" (spot_deploy_key variant) (spot_variant_json variant))
