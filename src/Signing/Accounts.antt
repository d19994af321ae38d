-- ===== src/Signing/Accounts.antt =====
-- The transfer, margin and account actions of signing/l1_action.go,
-- signing/legacy_management_actions.go and signing/account_management_actions.go.
use hypersdk_go.Json.{Json, boolean, number, text, object, done, field}
use hypersdk_go.Prelude.Int.{ℤ, pos}
use hypersdk_go.Prelude.{ℕ, Bool, Option, String, List, [], ◌∷◌, ◌++◌}
use hypersdk_go.Signing.Encoder.{
  Call, encode_map_len, encode_string, encode_int, encode_uint, encode_bool, encode_pairs,
  encode_pointer, json_pointer, marshal_account_map,
}

unfoldable pub subaccount_transfer_action : String → Bool → ℕ → List Call
subaccount_transfer_action subaccount_user is_deposit usd =
    encode_map_len 4
    ∷ (encode_pairs (
          ("type", encode_string "subAccountTransfer" ∷ [])
          ∷ ("subAccountUser", encode_string subaccount_user ∷ [])
          ∷ ("isDeposit", encode_bool is_deposit ∷ [])
          ∷ [])
        ++ (encode_string "usd" ∷ encode_uint usd ∷ []))

unfoldable pub subaccount_transfer_action_json : String → Bool → ℕ → Json
subaccount_transfer_action_json subaccount_user is_deposit usd = object (
    field "type" (text "subAccountTransfer") (
      field "subAccountUser" (text subaccount_user)
        (field "isDeposit" (boolean is_deposit) (field "usd" (number (pos usd)) done))))

unfoldable pub subaccount_spot_transfer_action : String → Bool → String → String → List Call
subaccount_spot_transfer_action subaccount_user is_deposit token amount =
    encode_map_len 5
    ∷ encode_pairs (
        ("type", encode_string "subAccountSpotTransfer" ∷ [])
        ∷ ("subAccountUser", encode_string subaccount_user ∷ [])
        ∷ ("isDeposit", encode_bool is_deposit ∷ [])
        ∷ ("token", encode_string token ∷ [])
        ∷ ("amount", encode_string amount ∷ [])
        ∷ [])

unfoldable pub subaccount_spot_transfer_action_json : String → Bool → String → String → Json
subaccount_spot_transfer_action_json subaccount_user is_deposit token amount = object (
    field "type" (text "subAccountSpotTransfer") (
      field "subAccountUser" (text subaccount_user) (
        field "isDeposit" (boolean is_deposit)
          (field "token" (text token) (field "amount" (text amount) done)))))

unfoldable pub vault_transfer_action : String → Bool → ℕ → List Call
vault_transfer_action vault_address is_deposit usd =
    encode_map_len 4
    ∷ (encode_pairs (
          ("type", encode_string "vaultTransfer" ∷ [])
          ∷ ("vaultAddress", encode_string vault_address ∷ [])
          ∷ ("isDeposit", encode_bool is_deposit ∷ [])
          ∷ [])
        ++ (encode_string "usd" ∷ encode_uint usd ∷ []))

unfoldable pub vault_transfer_action_json : String → Bool → ℕ → Json
vault_transfer_action_json vault_address is_deposit usd = object (
    field "type" (text "vaultTransfer") (
      field "vaultAddress" (text vault_address)
        (field "isDeposit" (boolean is_deposit) (field "usd" (number (pos usd)) done))))

unfoldable pub update_leverage_action : ℤ → Bool → ℕ → List Call
update_leverage_action asset is_cross leverage =
    encode_map_len 4
    ∷ encode_string "type"
    ∷ encode_string "updateLeverage"
    ∷ encode_string "asset"
    ∷ encode_int asset
    ∷ encode_string "isCross"
    ∷ encode_bool is_cross
    ∷ encode_string "leverage"
    ∷ encode_uint leverage
    ∷ []

unfoldable pub update_leverage_action_json : ℤ → Bool → ℕ → Json
update_leverage_action_json asset is_cross leverage = object (
    field "type" (text "updateLeverage") (
      field "asset" (number asset)
        (field "isCross" (boolean is_cross) (field "leverage" (number (pos leverage)) done))))

unfoldable pub update_isolated_margin_action : ℤ → Bool → ℤ → List Call
update_isolated_margin_action asset is_buy ntli =
    encode_map_len 4
    ∷ encode_string "type"
    ∷ encode_string "updateIsolatedMargin"
    ∷ encode_string "asset"
    ∷ encode_int asset
    ∷ encode_string "isBuy"
    ∷ encode_bool is_buy
    ∷ encode_string "ntli"
    ∷ encode_int ntli
    ∷ []

unfoldable pub update_isolated_margin_action_json : ℤ → Bool → ℤ → Json
update_isolated_margin_action_json asset is_buy ntli = object (
    field "type" (text "updateIsolatedMargin") (
      field "asset" (number asset)
        (field "isBuy" (boolean is_buy) (field "ntli" (number ntli) done))))

unfoldable pub top_up_isolated_only_margin_action : ℤ → String → List Call
top_up_isolated_only_margin_action asset leverage =
    encode_map_len 3
    ∷ encode_pairs (
        ("type", encode_string "topUpIsolatedOnlyMargin" ∷ [])
        ∷ ("asset", encode_int asset ∷ [])
        ∷ ("leverage", encode_string leverage ∷ [])
        ∷ [])

unfoldable pub top_up_isolated_only_margin_action_json : ℤ → String → Json
top_up_isolated_only_margin_action_json asset leverage = object (
    field "type" (text "topUpIsolatedOnlyMargin")
      (field "asset" (number asset) (field "leverage" (text leverage) done)))

unfoldable pub reserve_request_weight_action : ℕ → List Call
reserve_request_weight_action weight =
    encode_map_len 2
    ∷ encode_string "type"
    ∷ encode_string "reserveRequestWeight"
    ∷ encode_string "weight"
    ∷ encode_uint weight
    ∷ []

unfoldable pub reserve_request_weight_action_json : ℕ → Json
reserve_request_weight_action_json weight =
    object (field "type" (text "reserveRequestWeight") (field "weight" (number (pos weight)) done))

unfoldable pub noop_action : List Call
noop_action = encode_map_len 1 ∷ encode_string "type" ∷ encode_string "noop" ∷ []

unfoldable pub noop_action_json : Json
noop_action_json = object (field "type" (text "noop") done)

unfoldable pub set_referrer_action : String → List Call
set_referrer_action code =
    encode_map_len 2
    ∷ encode_string "type"
    ∷ encode_string "setReferrer"
    ∷ encode_string "code"
    ∷ encode_string code
    ∷ []

unfoldable pub set_referrer_action_json : String → Json
set_referrer_action_json code =
    object (field "type" (text "setReferrer") (field "code" (text code) done))

unfoldable pub create_sub_account_action : String → List Call
create_sub_account_action name =
    encode_map_len 2
    ∷ encode_string "type"
    ∷ encode_string "createSubAccount"
    ∷ encode_string "name"
    ∷ encode_string name
    ∷ []

unfoldable pub create_sub_account_action_json : String → Json
create_sub_account_action_json name =
    object (field "type" (text "createSubAccount") (field "name" (text name) done))

unfoldable pub create_vault_action : String → String → ℕ → ℕ → List Call
create_vault_action name description initial_usd nonce = marshal_account_map (
    ("type", encode_string "createVault" ∷ [])
    ∷ ("name", encode_string name ∷ [])
    ∷ ("description", encode_string description ∷ [])
    ∷ ("initialUsd", encode_uint initial_usd ∷ [])
    ∷ ("nonce", encode_uint nonce ∷ [])
    ∷ [])

unfoldable pub create_vault_action_json : String → String → ℕ → ℕ → Json
create_vault_action_json name description initial_usd nonce = object (
    field "type" (text "createVault") (
      field "name" (text name) (
        field "description" (text description) (
          field "initialUsd" (number (pos initial_usd))
            (field "nonce" (number (pos nonce)) done)))))

unfoldable pub vault_modify_action : String → Option Bool → Option Bool → List Call
vault_modify_action vault_address allow_deposits always_close_on_withdraw = marshal_account_map (
    ("type", encode_string "vaultModify" ∷ [])
    ∷ ("vaultAddress", encode_string vault_address ∷ [])
    ∷ ("allowDeposits", encode_pointer (λ b. encode_bool b ∷ []) allow_deposits)
    ∷ ("alwaysCloseOnWithdraw", encode_pointer (λ b. encode_bool b ∷ []) always_close_on_withdraw)
    ∷ [])

unfoldable pub vault_modify_action_json : String → Option Bool → Option Bool → Json
vault_modify_action_json vault_address allow_deposits always_close_on_withdraw = object (
    field "type" (text "vaultModify") (
      field "vaultAddress" (text vault_address) (
        field "allowDeposits" (json_pointer boolean allow_deposits)
          (field "alwaysCloseOnWithdraw" (json_pointer boolean always_close_on_withdraw) done))))

unfoldable pub vault_distribute_action : String → ℕ → List Call
vault_distribute_action vault_address usd = marshal_account_map (
    ("type", encode_string "vaultDistribute" ∷ [])
    ∷ ("vaultAddress", encode_string vault_address ∷ [])
    ∷ ("usd", encode_uint usd ∷ [])
    ∷ [])

unfoldable pub vault_distribute_action_json : String → ℕ → Json
vault_distribute_action_json vault_address usd = object (
    field "type" (text "vaultDistribute")
      (field "vaultAddress" (text vault_address) (field "usd" (number (pos usd)) done)))

unfoldable pub sub_account_modify_action : String → String → List Call
sub_account_modify_action sub_account_user name = marshal_account_map (
    ("type", encode_string "subAccountModify" ∷ [])
    ∷ ("subAccountUser", encode_string sub_account_user ∷ [])
    ∷ ("name", encode_string name ∷ [])
    ∷ [])

unfoldable pub sub_account_modify_action_json : String → String → Json
sub_account_modify_action_json sub_account_user name = object (
    field "type" (text "subAccountModify")
      (field "subAccountUser" (text sub_account_user) (field "name" (text name) done)))

unfoldable pub set_display_name_action : String → List Call
set_display_name_action display_name = marshal_account_map (
    ("type", encode_string "setDisplayName" ∷ [])
    ∷ ("displayName", encode_string display_name ∷ [])
    ∷ [])

unfoldable pub set_display_name_action_json : String → Json
set_display_name_action_json display_name =
    object (field "type" (text "setDisplayName") (field "displayName" (text display_name) done))
