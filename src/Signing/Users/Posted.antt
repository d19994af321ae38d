-- ===== src/Signing/Users/Posted.antt =====
-- userSignedWire of each action.
use hypersdk_go.Json.{Fields, boolean, number, text, done, field}
use hypersdk_go.Prelude.Int.{pos}
use hypersdk_go.Prelude.{Bool, Option, none, some, String, string_eq, nat_eq, Result, ok, ◌>>=◌}
use hypersdk_go.Signing.Users.{hex_text, wire_fields}
use hypersdk_go.Signing.Users.Actions.{
  UserAction, validate_user_action, usd_send, spot_send, withdraw, usd_class_transfer, send_asset,
  approve_builder_fee, send_to_evm, c_deposit, c_withdraw, token_delegate, user_dex_abstraction,
  user_set_abstraction, approve_agent,
}
use hypersdk_go.Signing.Users.Typed.{sub_account_text}

-- `omitempty` on the agent's name.
abbrev pub agent_name_fields : Option String → Fields → Fields
agent_name_fields none rest = rest
agent_name_fields (some name) rest = field "agentName" (text name) rest

module _ {Address : Type 0} (hex : Address → String) where
  unfoldable pub user_wire_fields : UserAction Address → Bool → Fields
  user_wire_fields (usd_send a) is_mainnet = wire_fields "usdSend" is_mainnet (
      field "destination" (text (hex a.destination))
        (field "amount" (text a.amount) (field "time" (number (pos a.time)) done)))
  user_wire_fields (spot_send a) is_mainnet = wire_fields "spotSend" is_mainnet (
      field "destination" (text (hex a.destination)) (
        field "token" (text a.token)
          (field "amount" (text a.amount) (field "time" (number (pos a.time)) done))))
  user_wire_fields (withdraw a) is_mainnet = wire_fields "withdraw3" is_mainnet (
      field "destination" (text (hex a.destination))
        (field "amount" (text a.amount) (field "time" (number (pos a.time)) done)))
  user_wire_fields (usd_class_transfer a) is_mainnet = wire_fields "usdClassTransfer" is_mainnet (
      field "amount" (text a.amount)
        (field "toPerp" (boolean a.to_perp) (field "nonce" (number (pos a.nonce)) done)))
  user_wire_fields (send_asset a) is_mainnet = wire_fields "sendAsset" is_mainnet (
      field "destination" (text (hex a.destination)) (
        field "sourceDex" (text a.source_dex) (
          field "destinationDex" (text a.destination_dex) (
            field "token" (text a.token) (
              field "amount" (text a.amount) (
                field "fromSubAccount" (text (sub_account_text hex a.from_sub_account))
                  (field "nonce" (number (pos a.nonce)) done)))))))
  user_wire_fields (approve_builder_fee a) is_mainnet = wire_fields "approveBuilderFee" is_mainnet (
      field "maxFeeRate" (text a.max_fee_rate)
        (field "builder" (text (hex a.builder)) (field "nonce" (number (pos a.nonce)) done)))
  user_wire_fields (send_to_evm a) is_mainnet = wire_fields "sendToEvmWithData" is_mainnet (
      field "token" (text a.token) (
        field "amount" (text a.amount) (
          field "sourceDex" (text a.source_dex) (
            field "destinationRecipient" (text a.destination_recipient) (
              field "addressEncoding" (text a.address_encoding) (
                field "destinationChainId" (number (pos a.destination_chain_id)) (
                  field "gasLimit" (number (pos a.gas_limit)) (
                    field "data" (text (hex_text a.data_bytes))
                      (field "nonce" (number (pos a.nonce)) done)))))))))
  user_wire_fields (c_deposit a) is_mainnet =
      wire_fields "cDeposit" is_mainnet
        (field "wei" (number (pos a.wei)) (field "nonce" (number (pos a.nonce)) done))
  user_wire_fields (c_withdraw a) is_mainnet =
      wire_fields "cWithdraw" is_mainnet
        (field "wei" (number (pos a.wei)) (field "nonce" (number (pos a.nonce)) done))
  user_wire_fields (token_delegate a) is_mainnet = wire_fields "tokenDelegate" is_mainnet (
      field "validator" (text (hex a.validator)) (
        field "wei" (number (pos a.wei)) (
          field "isUndelegate" (boolean a.is_undelegate)
            (field "nonce" (number (pos a.nonce)) done))))
  user_wire_fields (user_dex_abstraction a) is_mainnet =
      wire_fields "userDexAbstraction" is_mainnet (
        field "user" (text (hex a.user))
          (field "enabled" (boolean a.enabled) (field "nonce" (number (pos a.nonce)) done)))
  user_wire_fields (user_set_abstraction a) is_mainnet =
      wire_fields "userSetAbstraction" is_mainnet (
        field "user" (text (hex a.user))
          (field "abstraction" (text a.abstraction) (field "nonce" (number (pos a.nonce)) done)))
  user_wire_fields (approve_agent a) is_mainnet = wire_fields "approveAgent" is_mainnet (
      field "agentAddress" (text (hex a.agent_address))
        (agent_name_fields a.agent_name (field "nonce" (number (pos a.nonce)) done)))

  module _ (is_zero : Address → Bool) where
    unfoldable pub user_signed_wire : UserAction Address → Bool → Result String Fields
    user_signed_wire a is_mainnet =
        validate_user_action is_zero a >>= λ _. ok (user_wire_fields a is_mainnet)
