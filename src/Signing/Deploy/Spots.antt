-- ===== src/Signing/Deploy/Spots.antt =====
-- The payloads of the spotDeploy variants (signing/deploy_actions.go).
use hypersdk_go.Json.{Json, boolean, number, text, array, object, nil, item, done, field}
use hypersdk_go.Prelude.Int.{ℤ, pos}
use hypersdk_go.Prelude.Texts.{to_lower}
use hypersdk_go.Prelude.{ℕ, Bool, true, false, Option, none, some, String, List, [], ◌∷◌, ◌++◌}
use hypersdk_go.Signing.Encoder.{
  Call, encode_map_len, encode_array_len, encode_string, encode_int, encode_uint, encode_bool,
  encode_pairs, encode_slice, json_slice, plus_optional, optional_pair, omit_empty,
}
use hypersdk_go.Signing.Deploy.Registers.{encode_text, encode_number, json_number}

pub record TokenSpec : Type 0 where
  pub name : String
  pub sz_decimals : ℕ
  pub wei_decimals : ℕ

unfoldable pub token_spec : TokenSpec → List Call
token_spec a =
    encode_map_len 3
    ∷ encode_pairs (
        ("name", encode_string a.name ∷ [])
        ∷ ("szDecimals", encode_uint a.sz_decimals ∷ [])
        ∷ ("weiDecimals", encode_uint a.wei_decimals ∷ [])
        ∷ [])

unfoldable pub token_spec_json : TokenSpec → Json
token_spec_json a = object (
    field "name" (text a.name) (
      field "szDecimals" (number (pos a.sz_decimals))
        (field "weiDecimals" (number (pos a.wei_decimals)) done)))

pub record RegisterToken2 : Type 0 where
  pub spec : TokenSpec
  pub max_gas : ℕ
  pub full_name : Option String

unfoldable pub register_token2 : RegisterToken2 → List Call
register_token2 a =
    encode_map_len (plus_optional 2 a.full_name)
    ∷ (encode_pairs (("spec", token_spec a.spec) ∷ ("maxGas", encode_uint a.max_gas ∷ []) ∷ [])
        ++ optional_pair "fullName" encode_text a.full_name)

unfoldable pub register_token2_json : RegisterToken2 → Json
register_token2_json a = object (
    field "spec" (token_spec_json a.spec)
      (field "maxGas" (number (pos a.max_gas)) (omit_empty "fullName" text a.full_name)))

pub record AddressWei : Type 0 where
  pub user : String
  pub wei : String

unfoldable pub address_wei : AddressWei → List Call
address_wei p = encode_array_len 2 ∷ encode_string (to_lower p.user) ∷ encode_string p.wei ∷ []

unfoldable pub address_wei_json : AddressWei → Json
address_wei_json p = array (item (text (to_lower p.user)) (item (text p.wei) nil))

pub record TokenWei : Type 0 where
  pub token : ℕ
  pub wei : String

unfoldable pub token_wei : TokenWei → List Call
token_wei p = encode_array_len 2 ∷ encode_uint p.token ∷ encode_string p.wei ∷ []

unfoldable pub token_wei_json : TokenWei → Json
token_wei_json p = array (item (number (pos p.token)) (item (text p.wei) nil))

pub record AddressBlacklist : Type 0 where
  pub user : String
  pub blacklisted : Bool

unfoldable pub address_blacklist : AddressBlacklist → List Call
address_blacklist p =
    encode_array_len 2 ∷ encode_string (to_lower p.user) ∷ encode_bool p.blacklisted ∷ []

unfoldable pub address_blacklist_json : AddressBlacklist → Json
address_blacklist_json p = array (item (text (to_lower p.user)) (item (boolean p.blacklisted) nil))

-- `omitempty` on a slice and on a Boolean: an empty slice and false are left out.
abbrev pub non_empty {ℓ} : {A : Type ℓ} → Option (List A) → Option (Option (List A))
non_empty none = none
non_empty (some []) = none
non_empty (some (a ∷ others)) = some (some (a ∷ others))

abbrev pub when_true : Bool → Option Bool
when_true true = some true
when_true false = none

abbrev pub encode_flag : Bool → List Call
encode_flag b = encode_bool b ∷ []

pub record UserGenesis : Type 0 where
  pub token : ℕ
  pub user_and_wei : Option (List AddressWei)
  pub existing_token_and_wei : Option (List TokenWei)
  pub blacklist_users : Option (List AddressBlacklist)

unfoldable pub user_genesis : UserGenesis → List Call
user_genesis a =
    encode_map_len (plus_optional 3 (non_empty a.blacklist_users))
    ∷ (encode_pairs (
          ("token", encode_uint a.token ∷ [])
          ∷ ("userAndWei", encode_slice address_wei a.user_and_wei)
          ∷ ("existingTokenAndWei", encode_slice token_wei a.existing_token_and_wei)
          ∷ [])
        ++ optional_pair "blacklistUsers" (encode_slice address_blacklist)
            (non_empty a.blacklist_users))

unfoldable pub user_genesis_json : UserGenesis → Json
user_genesis_json a = object (
    field "token" (number (pos a.token)) (
      field "userAndWei" (json_slice address_wei_json a.user_and_wei) (
        field "existingTokenAndWei" (json_slice token_wei_json a.existing_token_and_wei) (
          omit_empty "blacklistUsers" (json_slice address_blacklist_json)
            (non_empty a.blacklist_users)))))

pub record Genesis : Type 0 where
  pub token : ℕ
  pub max_supply : String
  pub no_hyperliquidity : Bool

unfoldable pub genesis : Genesis → List Call
genesis a =
    encode_map_len (plus_optional 2 (when_true a.no_hyperliquidity))
    ∷ (encode_pairs (
          ("token", encode_uint a.token ∷ []) ∷ ("maxSupply", encode_string a.max_supply ∷ []) ∷ [])
        ++ optional_pair "noHyperliquidity" encode_flag (when_true a.no_hyperliquidity))

unfoldable pub genesis_json : Genesis → Json
genesis_json a = object (
    field "token" (number (pos a.token)) (
      field "maxSupply" (text a.max_supply)
        (omit_empty "noHyperliquidity" boolean (when_true a.no_hyperliquidity))))

-- A `[2]uint64`.
pub record RegisterSpot : Type 0 where
  pub base_token : ℕ
  pub quote_token : ℕ

unfoldable pub register_spot : RegisterSpot → List Call
register_spot a =
    encode_map_len 1
    ∷ encode_string "tokens"
    ∷ encode_array_len 2
    ∷ encode_uint a.base_token
    ∷ encode_uint a.quote_token
    ∷ []

unfoldable pub register_spot_json : RegisterSpot → Json
register_spot_json a = object (
    field "tokens"
      (array (item (number (pos a.base_token)) (item (number (pos a.quote_token)) nil))) done)

pub record RegisterHyperliquidity : Type 0 where
  pub spot : ℕ
  pub start_px : String
  pub order_sz : String
  pub n_orders : ℕ
  pub n_seeded_levels : Option ℕ

unfoldable pub register_hyperliquidity : RegisterHyperliquidity → List Call
register_hyperliquidity a =
    encode_map_len (plus_optional 4 a.n_seeded_levels)
    ∷ (encode_pairs (
          ("spot", encode_uint a.spot ∷ [])
          ∷ ("startPx", encode_string a.start_px ∷ [])
          ∷ ("orderSz", encode_string a.order_sz ∷ [])
          ∷ ("nOrders", encode_uint a.n_orders ∷ [])
          ∷ [])
        ++ optional_pair "nSeededLevels" encode_number a.n_seeded_levels)

unfoldable pub register_hyperliquidity_json : RegisterHyperliquidity → Json
register_hyperliquidity_json a = object (
    field "spot" (number (pos a.spot)) (
      field "startPx" (text a.start_px) (
        field "orderSz" (text a.order_sz) (
          field "nOrders" (number (pos a.n_orders))
            (omit_empty "nSeededLevels" json_number a.n_seeded_levels)))))

pub record SetDeployerTradingFeeShare : Type 0 where
  pub token : ℕ
  pub share : String

unfoldable pub set_deployer_trading_fee_share : SetDeployerTradingFeeShare → List Call
set_deployer_trading_fee_share a =
    encode_map_len 2
    ∷ encode_pairs
        (("token", encode_uint a.token ∷ []) ∷ ("share", encode_string a.share ∷ []) ∷ [])

unfoldable pub set_deployer_trading_fee_share_json : SetDeployerTradingFeeShare → Json
set_deployer_trading_fee_share_json a =
    object (field "token" (number (pos a.token)) (field "share" (text a.share) done))

-- The five variants that name a token and nothing else.
pub record QuoteToken : Type 0 where
  pub token : ℕ

unfoldable pub quote_token : QuoteToken → List Call
quote_token a = encode_map_len 1 ∷ encode_pairs (("token", encode_uint a.token ∷ []) ∷ [])

unfoldable pub quote_token_json : QuoteToken → Json
quote_token_json a = object (field "token" (number (pos a.token)) done)

pub record RequestEvmContract : Type 0 where
  pub token : ℕ
  pub address : String
  pub evm_extra_wei_decimals : ℤ

unfoldable pub request_evm_contract : RequestEvmContract → List Call
request_evm_contract a =
    encode_map_len 3
    ∷ encode_pairs (
        ("token", encode_uint a.token ∷ [])
        ∷ ("address", encode_string (to_lower a.address) ∷ [])
        ∷ ("evmExtraWeiDecimals", encode_int a.evm_extra_wei_decimals ∷ [])
        ∷ [])

unfoldable pub request_evm_contract_json : RequestEvmContract → Json
request_evm_contract_json a = object (
    field "token" (number (pos a.token)) (
      field "address" (text (to_lower a.address))
        (field "evmExtraWeiDecimals" (number a.evm_extra_wei_decimals) done)))

pub record FreezeUser : Type 0 where
  pub token : ℕ
  pub user : String
  pub freeze : Bool

unfoldable pub freeze_user : FreezeUser → List Call
freeze_user a =
    encode_map_len 3
    ∷ encode_pairs (
        ("token", encode_uint a.token ∷ [])
        ∷ ("user", encode_string (to_lower a.user) ∷ [])
        ∷ ("freeze", encode_bool a.freeze ∷ [])
        ∷ [])

unfoldable pub freeze_user_json : FreezeUser → Json
freeze_user_json a = object (
    field "token" (number (pos a.token))
      (field "user" (text (to_lower a.user)) (field "freeze" (boolean a.freeze) done)))
