-- ===== src/Signing/Users/Typed.antt =====
-- userSignedTypedData of each action.
use hypersdk_go.Json.{boolean, number, text, done, field}
use hypersdk_go.Prelude.Int.{pos}
use hypersdk_go.Prelude.{
  Bool, Option, none, some, String, string_eq, nat_eq, [], ◌∷◌, Result, ok, ◌>>=◌,
}
use hypersdk_go.Signing.Users.{TypedData, hex_text, name_text, typed}
use hypersdk_go.Signing.Users.Actions.{
  UserAction, validate_user_action, usd_send, spot_send, withdraw, usd_class_transfer, send_asset,
  approve_builder_fee, send_to_evm, c_deposit, c_withdraw, token_delegate, user_dex_abstraction,
  user_set_abstraction, approve_agent,
}

module _ {Address : Type 0} (hex : Address → String) where
  abbrev pub sub_account_text : Option Address → String
  sub_account_text none = ""
  sub_account_text (some address) = hex address

  unfoldable pub user_typed_data : UserAction Address → Bool → TypedData
  user_typed_data (usd_send a) is_mainnet =
      typed "UsdSend" is_mainnet
        (("destination", "string") ∷ ("amount", "string") ∷ ("time", "uint64") ∷ [])
        (field "destination" (text (hex a.destination))
          (field "amount" (text a.amount) (field "time" (number (pos a.time)) done)))
  user_typed_data (spot_send a) is_mainnet =
      typed "SpotSend" is_mainnet
        (("destination", "string")
          ∷ ("token", "string")
          ∷ ("amount", "string")
          ∷ ("time", "uint64")
          ∷ [])
        (field "destination" (text (hex a.destination)) (
          field "token" (text a.token)
            (field "amount" (text a.amount) (field "time" (number (pos a.time)) done))))
  user_typed_data (withdraw a) is_mainnet =
      typed "Withdraw" is_mainnet
        (("destination", "string") ∷ ("amount", "string") ∷ ("time", "uint64") ∷ [])
        (field "destination" (text (hex a.destination))
          (field "amount" (text a.amount) (field "time" (number (pos a.time)) done)))
  user_typed_data (usd_class_transfer a) is_mainnet =
      typed "UsdClassTransfer" is_mainnet
        (("amount", "string") ∷ ("toPerp", "bool") ∷ ("nonce", "uint64") ∷ [])
        (field "amount" (text a.amount)
          (field "toPerp" (boolean a.to_perp) (field "nonce" (number (pos a.nonce)) done)))
  user_typed_data (send_asset a) is_mainnet =
      typed "SendAsset" is_mainnet
        (("destination", "string")
          ∷ ("sourceDex", "string")
          ∷ ("destinationDex", "string")
          ∷ ("token", "string")
          ∷ ("amount", "string")
          ∷ ("fromSubAccount", "string")
          ∷ ("nonce", "uint64")
          ∷ [])
        (field "destination" (text (hex a.destination)) (
          field "sourceDex" (text a.source_dex) (
            field "destinationDex" (text a.destination_dex) (
              field "token" (text a.token) (
                field "amount" (text a.amount) (
                  field "fromSubAccount" (text (sub_account_text a.from_sub_account))
                    (field "nonce" (number (pos a.nonce)) done)))))))
  user_typed_data (approve_builder_fee a) is_mainnet =
      typed "ApproveBuilderFee" is_mainnet
        (("maxFeeRate", "string") ∷ ("builder", "address") ∷ ("nonce", "uint64") ∷ [])
        (field "maxFeeRate" (text a.max_fee_rate)
          (field "builder" (text (hex a.builder)) (field "nonce" (number (pos a.nonce)) done)))
  user_typed_data (send_to_evm a) is_mainnet =
      typed "SendToEvmWithData" is_mainnet
        (("token", "string")
          ∷ ("amount", "string")
          ∷ ("sourceDex", "string")
          ∷ ("destinationRecipient", "string")
          ∷ ("addressEncoding", "string")
          ∷ ("destinationChainId", "uint32")
          ∷ ("gasLimit", "uint64")
          ∷ ("data", "bytes")
          ∷ ("nonce", "uint64")
          ∷ [])
        (field "token" (text a.token) (
          field "amount" (text a.amount) (
            field "sourceDex" (text a.source_dex) (
              field "destinationRecipient" (text a.destination_recipient) (
                field "addressEncoding" (text a.address_encoding) (
                  field "destinationChainId" (number (pos a.destination_chain_id)) (
                    field "gasLimit" (number (pos a.gas_limit)) (
                      field "data" (text (hex_text a.data_bytes))
                        (field "nonce" (number (pos a.nonce)) done)))))))))
  user_typed_data (c_deposit a) is_mainnet =
      typed "CDeposit" is_mainnet (("wei", "uint64") ∷ ("nonce", "uint64") ∷ [])
        (field "wei" (number (pos a.wei)) (field "nonce" (number (pos a.nonce)) done))
  user_typed_data (c_withdraw a) is_mainnet =
      typed "CWithdraw" is_mainnet (("wei", "uint64") ∷ ("nonce", "uint64") ∷ [])
        (field "wei" (number (pos a.wei)) (field "nonce" (number (pos a.nonce)) done))
  user_typed_data (token_delegate a) is_mainnet =
      typed "TokenDelegate" is_mainnet
        (("validator", "address")
          ∷ ("wei", "uint64")
          ∷ ("isUndelegate", "bool")
          ∷ ("nonce", "uint64")
          ∷ [])
        (field "validator" (text (hex a.validator)) (
          field "wei" (number (pos a.wei)) (
            field "isUndelegate" (boolean a.is_undelegate)
              (field "nonce" (number (pos a.nonce)) done))))
  user_typed_data (user_dex_abstraction a) is_mainnet =
      typed "UserDexAbstraction" is_mainnet
        (("user", "address") ∷ ("enabled", "bool") ∷ ("nonce", "uint64") ∷ [])
        (field "user" (text (hex a.user))
          (field "enabled" (boolean a.enabled) (field "nonce" (number (pos a.nonce)) done)))
  user_typed_data (user_set_abstraction a) is_mainnet =
      typed "UserSetAbstraction" is_mainnet
        (("user", "address") ∷ ("abstraction", "string") ∷ ("nonce", "uint64") ∷ [])
        (field "user" (text (hex a.user))
          (field "abstraction" (text a.abstraction) (field "nonce" (number (pos a.nonce)) done)))
  user_typed_data (approve_agent a) is_mainnet =
      typed "ApproveAgent" is_mainnet
        (("agentAddress", "address") ∷ ("agentName", "string") ∷ ("nonce", "uint64") ∷ [])
        (field "agentAddress" (text (hex a.agent_address)) (
          field "agentName" (text (name_text a.agent_name))
            (field "nonce" (number (pos a.nonce)) done)))

  module _ (is_zero : Address → Bool) where
    unfoldable pub user_signed_typed_data : UserAction Address → Bool → Result String TypedData
    user_signed_typed_data a is_mainnet =
        validate_user_action is_zero a >>= λ _. ok (user_typed_data a is_mainnet)
