-- ===== src/Signing/Agents.antt =====
-- The L1 actions of signing/advanced_actions.go and signing/compat_actions.go that need no
-- validation, and the EVM finalization, which needs its input.
use hypersdk_go.Json.{Json, boolean, number, text, object, done, field}
use hypersdk_go.Prelude.Int.{pos}
use hypersdk_go.Prelude.{ℕ, Bool, String, List, [], ◌∷◌}
use hypersdk_go.Signing.Encoder.{Call, encode_map_len, encode_string, encode_uint, encode_bool}

unfoldable pub agent_enable_dex_abstraction_action : List Call
agent_enable_dex_abstraction_action =
    encode_map_len 1 ∷ encode_string "type" ∷ encode_string "agentEnableDexAbstraction" ∷ []

unfoldable pub agent_enable_dex_abstraction_action_json : Json
agent_enable_dex_abstraction_action_json =
    object (field "type" (text "agentEnableDexAbstraction") done)

unfoldable pub agent_set_abstraction_action : String → List Call
agent_set_abstraction_action abstraction =
    encode_map_len 2
    ∷ encode_string "type"
    ∷ encode_string "agentSetAbstraction"
    ∷ encode_string "abstraction"
    ∷ encode_string abstraction
    ∷ []

unfoldable pub agent_set_abstraction_action_json : String → Json
agent_set_abstraction_action_json abstraction =
    object (field "type" (text "agentSetAbstraction") (field "abstraction" (text abstraction) done))

unfoldable pub validator_l1_stream_action : String → List Call
validator_l1_stream_action risk_free_rate =
    encode_map_len 2
    ∷ encode_string "type"
    ∷ encode_string "validatorL1Stream"
    ∷ encode_string "riskFreeRate"
    ∷ encode_string risk_free_rate
    ∷ []

unfoldable pub validator_l1_stream_action_json : String → Json
validator_l1_stream_action_json risk_free_rate =
    object
      (field "type" (text "validatorL1Stream") (field "riskFreeRate" (text risk_free_rate) done))

unfoldable pub claim_rewards_action : List Call
claim_rewards_action = encode_map_len 1 ∷ encode_string "type" ∷ encode_string "claimRewards" ∷ []

unfoldable pub claim_rewards_action_json : Json
claim_rewards_action_json = object (field "type" (text "claimRewards") done)

unfoldable pub evm_user_modify_action : Bool → List Call
evm_user_modify_action using_big_blocks =
    encode_map_len 2
    ∷ encode_string "type"
    ∷ encode_string "evmUserModify"
    ∷ encode_string "usingBigBlocks"
    ∷ encode_bool using_big_blocks
    ∷ []

unfoldable pub evm_user_modify_action_json : Bool → Json
evm_user_modify_action_json using_big_blocks =
    object
      (field "type" (text "evmUserModify") (field "usingBigBlocks" (boolean using_big_blocks) done))

-- The proof that links a token to its EVM contract.
pub data FinalizeEvmInput : Type 0 where
  finalize_create : ℕ → FinalizeEvmInput
  first_storage_slot custom_storage_slot : FinalizeEvmInput

unfoldable pub finalize_evm_input : FinalizeEvmInput → List Call
finalize_evm_input (finalize_create nonce) =
    encode_map_len 1
    ∷ encode_string "create"
    ∷ encode_map_len 1
    ∷ encode_string "nonce"
    ∷ encode_uint nonce
    ∷ []
finalize_evm_input first_storage_slot = encode_string "firstStorageSlot" ∷ []
finalize_evm_input custom_storage_slot = encode_string "customStorageSlot" ∷ []

unfoldable pub finalize_evm_input_json : FinalizeEvmInput → Json
finalize_evm_input_json (finalize_create nonce) =
    object (field "create" (object (field "nonce" (number (pos nonce)) done)) done)
finalize_evm_input_json first_storage_slot = text "firstStorageSlot"
finalize_evm_input_json custom_storage_slot = text "customStorageSlot"

unfoldable pub finalize_evm_action : ℕ → FinalizeEvmInput → List Call
finalize_evm_action token input =
    encode_map_len 3
    ∷ encode_string "type"
    ∷ encode_string "finalizeEvmContract"
    ∷ encode_string "token"
    ∷ encode_uint token
    ∷ encode_string "input"
    ∷ finalize_evm_input input

unfoldable pub finalize_evm_action_json : ℕ → FinalizeEvmInput → Json
finalize_evm_action_json token input = object (
    field "type" (text "finalizeEvmContract")
      (field "token" (number (pos token)) (field "input" (finalize_evm_input_json input) done)))
