-- ===== src/Signing/Users/Actions.antt =====
-- The user-signed actions and their checks.
use hypersdk_go.Prelude.{
  ℕ, Bool, true, false, not, ◌||◌, Option, String, string_eq, nat_eq, ◌==◌, List, ◌>>=◌,
}
use hypersdk_go.Signing.Deploy.Checks.{Check, require}

pub record UsdSend (Address : Type 0) : Type 0 where
  pub destination : Address
  pub amount : String
  pub time : ℕ

pub record SpotSend (Address : Type 0) : Type 0 where
  pub destination : Address
  pub token : String
  pub amount : String
  pub time : ℕ

pub record WithdrawFromBridge (Address : Type 0) : Type 0 where
  pub destination : Address
  pub amount : String
  pub time : ℕ

pub record UsdClassTransfer (Address : Type 0) : Type 0 where
  pub amount : String
  pub to_perp : Bool
  pub nonce : ℕ

pub record SendAsset (Address : Type 0) : Type 0 where
  pub destination : Address
  pub source_dex : String
  pub destination_dex : String
  pub token : String
  pub amount : String
  pub from_sub_account : Option Address
  pub nonce : ℕ

pub record ApproveBuilderFee (Address : Type 0) : Type 0 where
  pub builder : Address
  pub max_fee_rate : String
  pub nonce : ℕ

pub record SendToEvmWithData (Address : Type 0) : Type 0 where
  pub token : String
  pub amount : String
  pub source_dex : String
  pub destination_recipient : String
  pub address_encoding : String
  pub destination_chain_id : ℕ
  pub gas_limit : ℕ
  pub data_bytes : List ℕ
  pub nonce : ℕ

pub record CDeposit (Address : Type 0) : Type 0 where
  pub wei : ℕ
  pub nonce : ℕ

pub record CWithdraw (Address : Type 0) : Type 0 where
  pub wei : ℕ
  pub nonce : ℕ

pub record TokenDelegate (Address : Type 0) : Type 0 where
  pub validator : Address
  pub wei : ℕ
  pub is_undelegate : Bool
  pub nonce : ℕ

pub record UserDexAbstraction (Address : Type 0) : Type 0 where
  pub user : Address
  pub enabled : Bool
  pub nonce : ℕ

pub record UserSetAbstraction (Address : Type 0) : Type 0 where
  pub user : Address
  pub abstraction : String
  pub nonce : ℕ

pub record ApproveAgent (Address : Type 0) : Type 0 where
  pub agent_address : Address
  pub agent_name : Option String
  pub nonce : ℕ

pub data UserAction (Address : Type 0) : Type 0 where
  usd_send : UsdSend Address → UserAction Address
  spot_send : SpotSend Address → UserAction Address
  withdraw : WithdrawFromBridge Address → UserAction Address
  usd_class_transfer : UsdClassTransfer Address → UserAction Address
  send_asset : SendAsset Address → UserAction Address
  approve_builder_fee : ApproveBuilderFee Address → UserAction Address
  send_to_evm : SendToEvmWithData Address → UserAction Address
  c_deposit : CDeposit Address → UserAction Address
  c_withdraw : CWithdraw Address → UserAction Address
  token_delegate : TokenDelegate Address → UserAction Address
  user_dex_abstraction : UserDexAbstraction Address → UserAction Address
  user_set_abstraction : UserSetAbstraction Address → UserAction Address
  approve_agent : ApproveAgent Address → UserAction Address

unfoldable pub action_nonce : {Address : Type 0} → UserAction Address → ℕ
action_nonce (usd_send a) = a.time
action_nonce (spot_send a) = a.time
action_nonce (withdraw a) = a.time
action_nonce (usd_class_transfer a) = a.nonce
action_nonce (send_asset a) = a.nonce
action_nonce (approve_builder_fee a) = a.nonce
action_nonce (send_to_evm a) = a.nonce
action_nonce (c_deposit a) = a.nonce
action_nonce (c_withdraw a) = a.nonce
action_nonce (token_delegate a) = a.nonce
action_nonce (user_dex_abstraction a) = a.nonce
action_nonce (user_set_abstraction a) = a.nonce
action_nonce (approve_agent a) = a.nonce

-- `OmitOuterVaultAddress`
unfoldable pub omit_outer_vault_address : {Address : Type 0} → UserAction Address → Bool
omit_outer_vault_address (usd_class_transfer a) = true
omit_outer_vault_address (send_asset a) = true
omit_outer_vault_address (send_to_evm a) = true
omit_outer_vault_address (c_deposit a) = true
omit_outer_vault_address (c_withdraw a) = true
omit_outer_vault_address (token_delegate a) = true
omit_outer_vault_address _ = false

module _ {Address : Type 0} (is_zero : Address → Bool) where
  unfoldable pub validate_user_action : UserAction Address → Check
  validate_user_action (usd_send a) = do
    _ ← require (not (is_zero a.destination)) "USD send destination is required"
    _ ← require (not (a.amount == "")) "USD send amount is required"
    require (not (a.time == 0)) "USD send time is required"
  validate_user_action (spot_send a) =
      require (not (is_zero a.destination || a.token == "" || a.amount == "" || a.time == 0))
        "spot send requires destination, token, amount, and time"
  validate_user_action (withdraw a) =
      require (not (is_zero a.destination || a.amount == "" || a.time == 0))
        "withdrawal requires destination, amount, and time"
  validate_user_action (usd_class_transfer a) =
      require (not (a.amount == "" || a.nonce == 0)) "USD class transfer requires amount and nonce"
  validate_user_action (send_asset a) =
      require (not (is_zero a.destination || a.token == "" || a.amount == "" || a.nonce == 0))
        "send asset requires destination, token, amount, and nonce"
  validate_user_action (approve_builder_fee a) =
      require (not (is_zero a.builder || a.max_fee_rate == "" || a.nonce == 0))
        "approve builder fee requires builder, max fee rate, and nonce"
  validate_user_action (send_to_evm a) = do
    _ ←
        require
          (not (a.token == "" || a.amount == "" || a.destination_recipient == "" || a.nonce == 0))
          "send to EVM with data requires token, amount, recipient, and nonce"
    require (a.address_encoding == "hex" || a.address_encoding == "base58")
        "unsupported EVM destination address encoding"
  validate_user_action (c_deposit a) =
      require (not (a.wei == 0 || a.nonce == 0)) "staking deposit requires positive wei and nonce"
  validate_user_action (c_withdraw a) =
      require (not (a.wei == 0 || a.nonce == 0))
        "staking withdrawal requires positive wei and nonce"
  validate_user_action (token_delegate a) =
      require (not (is_zero a.validator || a.wei == 0 || a.nonce == 0))
        "token delegate requires validator, positive wei, and nonce"
  validate_user_action (user_dex_abstraction a) =
      require (not (is_zero a.user || a.nonce == 0)) "user DEX abstraction requires user and nonce"
  validate_user_action (user_set_abstraction a) = do
    _ ← require (not (is_zero a.user || a.nonce == 0)) "user abstraction requires user and nonce"
    require
        (a.abstraction == "disabled"
          || a.abstraction == "unifiedAccount"
          || a.abstraction == "portfolioMargin")
        "unsupported user abstraction"
  validate_user_action (approve_agent a) =
      require (not (is_zero a.agent_address || a.nonce == 0))
        "approve agent requires address and nonce"
