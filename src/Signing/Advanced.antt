-- ===== src/Signing/Advanced.antt =====
-- The L1 actions of signing/advanced_actions.go and signing/compat_actions.go, which validate
-- before they encode. go-ethereum's address test, big.Rat's reading of a number and net.ParseIP are
-- parameters: what matters here is only whether they accept a text.
use hypersdk_go.Json.{Json, boolean, number, text, object, done, field}
use hypersdk_go.Prelude.Int.{pos}
use hypersdk_go.Prelude.Texts.{to_lower, trim_space}
use hypersdk_go.Prelude.{
  ℕ, ◌%◌, Bool, not, ◌&&◌, ◌||◌, String, string_eq, nat_eq, ◌==◌, List, [], ◌∷◌, if◌then◌else◌, ltb,
  Result, ok, err, ◌>>=◌,
}
use hypersdk_go.Signing.Encoder.{
  Call, encode_map_len, encode_string, encode_uint, encode_bool, encode_pairs,
}

pub data Invalid : Type 0 where
  send_fields_required subaccount_not_address amount_not_positive : Invalid
  unsupported_role dex_required notional_not_multiple : Invalid
  split_amount merge_amount question_amount negate_amount not_one_variant : Invalid
  slot_out_of_range ip_invalid max_gas_too_small : Invalid

abbrev pub Check : Type 0
Check = Result Invalid Unit

abbrev pub require : Bool → Invalid → Check
require passes problem = if passes then ok tt else err problem

pub record AgentSend : Type 0 where
  pub destination : String
  pub source_dex : String
  pub destination_dex : String
  pub token : String
  pub amount : String
  pub from_sub_account : String
  pub nonce : ℕ

module _ (is_hex_address positive_rat : String → Bool) where
  unfoldable pub validate_agent_send : AgentSend → Check
  validate_agent_send a = do
    _ ←
        require (is_hex_address a.destination && not (a.token == "") && not (a.nonce == 0))
          send_fields_required
    _ ←
        require (a.from_sub_account == "" || is_hex_address a.from_sub_account)
          subaccount_not_address
    require (positive_rat a.amount) amount_not_positive

  unfoldable pub agent_send_action : AgentSend → Result Invalid (List Call)
  agent_send_action a = validate_agent_send a >>= λ _. ok (
      encode_map_len 8
      ∷ encode_pairs (
          ("type", encode_string "agentSendAsset" ∷ [])
          ∷ ("destination", encode_string (to_lower a.destination) ∷ [])
          ∷ ("sourceDex", encode_string a.source_dex ∷ [])
          ∷ ("destinationDex", encode_string a.destination_dex ∷ [])
          ∷ ("token", encode_string a.token ∷ [])
          ∷ ("amount", encode_string a.amount ∷ [])
          ∷ ("fromSubAccount", encode_string (to_lower a.from_sub_account) ∷ [])
          ∷ ("nonce", encode_uint a.nonce ∷ [])
          ∷ []))

  unfoldable pub agent_send_action_json : AgentSend → Result Invalid Json
  agent_send_action_json a = validate_agent_send a >>= λ _. ok (
      object (
        field "type" (text "agentSendAsset") (
          field "destination" (text (to_lower a.destination)) (
            field "sourceDex" (text a.source_dex) (
              field "destinationDex" (text a.destination_dex) (
                field "token" (text a.token) (
                  field "amount" (text a.amount) (
                    field "fromSubAccount" (text (to_lower a.from_sub_account))
                      (field "nonce" (number (pos a.nonce)) done)))))))))

unfoldable pub validate_aqa_role : String → Check
validate_aqa_role role = require (role == "technical" || role == "treasury") unsupported_role

unfoldable pub authorize_aqa_role_action : ℕ → String → Result Invalid (List Call)
authorize_aqa_role_action token role = validate_aqa_role role >>= λ _. ok (
    encode_map_len 3
    ∷ encode_pairs (
        ("type", encode_string "authorizeAqav2Role" ∷ [])
        ∷ ("token", encode_uint token ∷ [])
        ∷ ("role", encode_string role ∷ [])
        ∷ []))

unfoldable pub authorize_aqa_role_action_json : ℕ → String → Result Invalid Json
authorize_aqa_role_action_json token role = validate_aqa_role role >>= λ _. ok (
    object (
      field "type" (text "authorizeAqav2Role")
        (field "token" (number (pos token)) (field "role" (text role) done))))

-- The least notional that a transfer to a liquidator moves.
abbrev pub liquidator_minimum : ℕ
liquidator_minimum = 1_000_000_000

unfoldable pub validate_liquidator_transfer : String → ℕ → Check
validate_liquidator_transfer dex ntl = do
  _ ← require (not (trim_space dex == "")) dex_required
  require (not (ntl == 0 || not (ntl % liquidator_minimum == 0))) notional_not_multiple

unfoldable pub liquidator_transfer_action : String → ℕ → Bool → Result Invalid (List Call)
liquidator_transfer_action dex ntl is_deposit = validate_liquidator_transfer dex ntl >>= λ _. ok (
    encode_map_len 4
    ∷ encode_pairs (
        ("type", encode_string "hip3LiquidatorTransfer" ∷ [])
        ∷ ("dex", encode_string dex ∷ [])
        ∷ ("ntl", encode_uint ntl ∷ [])
        ∷ ("isDeposit", encode_bool is_deposit ∷ [])
        ∷ []))

unfoldable pub liquidator_transfer_action_json : String → ℕ → Bool → Result Invalid Json
liquidator_transfer_action_json dex ntl is_deposit = validate_liquidator_transfer dex ntl >>= λ _.
    ok (
      object (
        field "type" (text "hip3LiquidatorTransfer") (
          field "dex" (text dex)
            (field "ntl" (number (pos ntl)) (field "isDeposit" (boolean is_deposit) done)))))

-- The bid's own minimum of gas, and its two slots.
abbrev pub minimum_bid_gas : ℕ
minimum_bid_gas = 10_000_000

module _ (parses_ip : String → Bool) where
  unfoldable pub validate_gossip_bid : ℕ → String → ℕ → Check
  validate_gossip_bid slot_id ip max_gas = do
    _ ← require (not (ltb 1 slot_id)) slot_out_of_range
    _ ← require (parses_ip ip) ip_invalid
    require (not (ltb max_gas minimum_bid_gas)) max_gas_too_small

  unfoldable pub gossip_bid_action : ℕ → String → ℕ → Result Invalid (List Call)
  gossip_bid_action slot_id ip max_gas = validate_gossip_bid slot_id ip max_gas >>= λ _. ok (
      encode_map_len 4
      ∷ encode_pairs (
          ("type", encode_string "gossipPriorityBid" ∷ [])
          ∷ ("slotId", encode_uint slot_id ∷ [])
          ∷ ("ip", encode_string ip ∷ [])
          ∷ ("maxGas", encode_uint max_gas ∷ [])
          ∷ []))

  unfoldable pub gossip_bid_action_json : ℕ → String → ℕ → Result Invalid Json
  gossip_bid_action_json slot_id ip max_gas = validate_gossip_bid slot_id ip max_gas >>= λ _. ok (
      object (
        field "type" (text "gossipPriorityBid") (
          field "slotId" (number (pos slot_id))
            (field "ip" (text ip) (field "maxGas" (number (pos max_gas)) done)))))
