-- ===== src/Signing/Deploy/SpotForms.antt =====
-- What the spotDeploy action of signing/deploy_actions.go signs is what it posts, variant by
-- variant.
use hypersdk_go.Json.{count_items, text, boolean}
use hypersdk_go.Prelude.{Option, List, refl, append-nil, append_assoc}
use hypersdk_go.Signing.Encoder.{encode_slice, json_slice}
use hypersdk_go.Signing.Reader.{items-append, print}
use hypersdk_go.Signing.Agreement.{Agrees, slice-Agrees, plus_optional-count, optional_pair-Agrees}
use hypersdk_go.Signing.Deploy.Registers.{encode_text, encode_number, json_number}
use hypersdk_go.Signing.Deploy.Spots.{
  token_spec, token_spec_json, RegisterToken2, register_token2, register_token2_json, AddressWei,
  address_wei, address_wei_json, TokenWei, token_wei, token_wei_json, AddressBlacklist,
  address_blacklist, address_blacklist_json, non_empty, when_true, encode_flag, UserGenesis,
  user_genesis, user_genesis_json, Genesis, genesis, genesis_json, register_spot,
  register_spot_json, RegisterHyperliquidity, register_hyperliquidity, register_hyperliquidity_json,
  set_deployer_trading_fee_share, set_deployer_trading_fee_share_json, QuoteToken, quote_token,
  quote_token_json, request_evm_contract, request_evm_contract_json, freeze_user, freeze_user_json,
}
use hypersdk_go.Signing.Deploy.SpotActions.{
  SpotDeployVariant, spot_variant, spot_variant_json, token2, users, supply, spot_pair,
  hyperliquidity, fee_share, enable_quote, disable_quote, enable_aligned_quote, enable_freeze,
  revoke_freeze, evm_contract, freeze_one,
}

address_wei-Agrees : (p : AddressWei) → Agrees (address_wei p) (address_wei_json p)
unfolding address_wei address_wei_json print count_items
address_wei-Agrees p = refl

token_wei-Agrees : (p : TokenWei) → Agrees (token_wei p) (token_wei_json p)
unfolding token_wei token_wei_json print count_items
token_wei-Agrees p = refl

address_blacklist-Agrees :
    (p : AddressBlacklist) → Agrees (address_blacklist p) (address_blacklist_json p)
unfolding address_blacklist address_blacklist_json print count_items
address_blacklist-Agrees p = refl

blacklist-Agrees :
    (listed : Option (List AddressBlacklist))
    → Agrees (encode_slice address_blacklist listed) (json_slice address_blacklist_json listed)
blacklist-Agrees listed =
    slice-Agrees address_blacklist address_blacklist_json listed address_blacklist-Agrees

user_genesis-Agrees : (a : UserGenesis) → Agrees (user_genesis a) (user_genesis_json a)
unfolding user_genesis user_genesis_json print
user_genesis-Agrees a =
    simp
      (
        items-append,
        append-nil,
        append_assoc,
        slice-Agrees address_wei address_wei_json a.user_and_wei address_wei-Agrees,
        slice-Agrees token_wei token_wei_json a.existing_token_and_wei token_wei-Agrees,
        plus_optional-count "blacklistUsers" (encode_slice address_blacklist)
            (json_slice address_blacklist_json) 3 (non_empty a.blacklist_users),
        optional_pair-Agrees "blacklistUsers" (encode_slice address_blacklist)
            (json_slice address_blacklist_json) (non_empty a.blacklist_users) blacklist-Agrees,
      )
      refl

register_token2-Agrees : (a : RegisterToken2) → Agrees (register_token2 a) (register_token2_json a)
unfolding register_token2 register_token2_json token_spec token_spec_json print
register_token2-Agrees a =
    simp
      (
        plus_optional-count "fullName" encode_text text 2 a.full_name,
        optional_pair-Agrees "fullName" encode_text text a.full_name (λ _. refl),
      )
      refl

genesis-Agrees : (a : Genesis) → Agrees (genesis a) (genesis_json a)
unfolding genesis genesis_json print
genesis-Agrees a =
    simp
      (
        plus_optional-count "noHyperliquidity" encode_flag boolean 2
            (when_true a.no_hyperliquidity),
        optional_pair-Agrees "noHyperliquidity" encode_flag boolean (when_true a.no_hyperliquidity)
            (λ _. refl),
      )
      refl

register_hyperliquidity-Agrees :
    (a : RegisterHyperliquidity)
    → Agrees (register_hyperliquidity a) (register_hyperliquidity_json a)
unfolding register_hyperliquidity register_hyperliquidity_json print
register_hyperliquidity-Agrees a =
    simp
      (
        plus_optional-count "nSeededLevels" encode_number json_number 4 a.n_seeded_levels,
        optional_pair-Agrees "nSeededLevels" encode_number json_number a.n_seeded_levels
            (λ _. refl),
      )
      refl

quote_token-Agrees : (a : QuoteToken) → Agrees (quote_token a) (quote_token_json a)
unfolding quote_token quote_token_json print
quote_token-Agrees a = refl

pub spot_variant-Agrees :
    (variant : SpotDeployVariant) → Agrees (spot_variant variant) (spot_variant_json variant)
unfolding spot_variant spot_variant_json register_spot register_spot_json
    set_deployer_trading_fee_share set_deployer_trading_fee_share_json request_evm_contract
    request_evm_contract_json freeze_user freeze_user_json print count_items
spot_variant-Agrees (token2 a) = register_token2-Agrees a
spot_variant-Agrees (users a) = user_genesis-Agrees a
spot_variant-Agrees (supply a) = genesis-Agrees a
spot_variant-Agrees (spot_pair a) = refl
spot_variant-Agrees (hyperliquidity a) = register_hyperliquidity-Agrees a
spot_variant-Agrees (fee_share a) = refl
spot_variant-Agrees (enable_quote a) = quote_token-Agrees a
spot_variant-Agrees (disable_quote a) = quote_token-Agrees a
spot_variant-Agrees (enable_aligned_quote a) = quote_token-Agrees a
spot_variant-Agrees (enable_freeze a) = quote_token-Agrees a
spot_variant-Agrees (revoke_freeze a) = quote_token-Agrees a
spot_variant-Agrees (evm_contract a) = refl
spot_variant-Agrees (freeze_one a) = refl
