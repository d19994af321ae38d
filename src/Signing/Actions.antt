-- ===== src/Signing/Actions.antt =====
-- The closed set of L1 actions (signing/l1_contract.go), each with the MarshalMsgpack that is
-- signed and the MarshalJSON that is posted. The two validator unions of signing/compat_actions.go,
-- whose JSON is a Go map, stand by themselves in Validators.
use hypersdk_go.Json.{Json}
use hypersdk_go.Prelude.Int.{ℤ}
use hypersdk_go.Prelude.{ℕ, Bool, Option, none, some, String, List, Result, ok, err}
use hypersdk_go.Signing.Encoder.{Call}
use hypersdk_go.Signing.Orders.{
  CancelWire, cancel_action, cancel_action_json, CancelByCloidWire, cancel_by_cloid_action,
  cancel_by_cloid_action_json, OrderAction, order_action, order_action_json,
}
use hypersdk_go.Signing.Modifies.{
  ModifyWire, batch_modify_action, batch_modify_action_json, schedule_cancel_action,
  schedule_cancel_action_json, TwapWire, twap_order_action, twap_order_action_json,
  twap_cancel_action, twap_cancel_action_json,
}
use hypersdk_go.Signing.Accounts.{
  subaccount_transfer_action, subaccount_transfer_action_json, subaccount_spot_transfer_action,
  subaccount_spot_transfer_action_json, vault_transfer_action, vault_transfer_action_json,
  update_leverage_action, update_leverage_action_json, update_isolated_margin_action,
  update_isolated_margin_action_json, top_up_isolated_only_margin_action,
  top_up_isolated_only_margin_action_json, reserve_request_weight_action,
  reserve_request_weight_action_json, noop_action, noop_action_json, set_referrer_action,
  set_referrer_action_json, create_sub_account_action, create_sub_account_action_json,
  create_vault_action, create_vault_action_json, vault_modify_action, vault_modify_action_json,
  vault_distribute_action, vault_distribute_action_json, sub_account_modify_action,
  sub_account_modify_action_json, set_display_name_action, set_display_name_action_json,
}
use hypersdk_go.Signing.Agents.{
  agent_enable_dex_abstraction_action, agent_enable_dex_abstraction_action_json,
  agent_set_abstraction_action, agent_set_abstraction_action_json, validator_l1_stream_action,
  validator_l1_stream_action_json, claim_rewards_action, claim_rewards_action_json,
  evm_user_modify_action, evm_user_modify_action_json, FinalizeEvmInput, finalize_evm_action,
  finalize_evm_action_json,
}
use hypersdk_go.Signing.Advanced.{
  Invalid, AgentSend, agent_send_action, agent_send_action_json, authorize_aqa_role_action,
  authorize_aqa_role_action_json, liquidator_transfer_action, liquidator_transfer_action_json,
  gossip_bid_action, gossip_bid_action_json,
}
use hypersdk_go.Signing.UserOutcomes.{
  UserOutcomeAction, user_outcome_action, user_outcome_action_json,
}
use hypersdk_go.Signing.Deploy.Checks.{DecimalLibrary}
use hypersdk_go.Signing.Deploy.PerpActions.{PerpDeployVariant}
use hypersdk_go.Signing.Deploy.PerpChecks.{perp_deploy_action, perp_deploy_action_json}
use hypersdk_go.Signing.Deploy.SpotActions.{
  SpotDeployVariant, spot_deploy_action, spot_deploy_action_json,
}

pub data L1Action : Type 0 where
  cancel : Option (List CancelWire) → L1Action
  order : OrderAction → L1Action
  cancel_by_cloid : Option (List CancelByCloidWire) → L1Action
  schedule_cancel : Option ℕ → L1Action
  twap_order : TwapWire → L1Action
  twap_cancel : ℤ → ℕ → L1Action
  subaccount_transfer : String → Bool → ℕ → L1Action
  subaccount_spot_transfer : String → Bool → String → String → L1Action
  vault_transfer : String → Bool → ℕ → L1Action
  batch_modify : Option (List ModifyWire) → L1Action
  update_leverage : ℤ → Bool → ℕ → L1Action
  update_isolated_margin : ℤ → Bool → ℤ → L1Action
  top_up_isolated_only_margin : ℤ → String → L1Action
  reserve_request_weight : ℕ → L1Action
  noop : L1Action
  agent_enable_dex_abstraction : L1Action
  agent_set_abstraction : String → L1Action
  agent_send_asset : AgentSend → L1Action
  authorize_aqa_role : ℕ → String → L1Action
  liquidator_transfer : String → ℕ → Bool → L1Action
  user_outcome : UserOutcomeAction → L1Action
  validator_l1_stream : String → L1Action
  claim_rewards : L1Action
  set_referrer : String → L1Action
  create_sub_account : String → L1Action
  create_vault : String → String → ℕ → ℕ → L1Action
  vault_modify : String → Option Bool → Option Bool → L1Action
  vault_distribute : String → ℕ → L1Action
  sub_account_modify : String → String → L1Action
  set_display_name : String → L1Action
  perp_deploy : Option PerpDeployVariant → L1Action
  spot_deploy : Option SpotDeployVariant → L1Action
  evm_user_modify : Bool → L1Action
  gossip_priority_bid : ℕ → String → ℕ → L1Action
  finalize_evm_contract : ℕ → Option FinalizeEvmInput → L1Action

-- Why an action is not encoded: a check of its own, or of a deployment.
pub data ActionError : Type 0 where
  invalid_action : Invalid → ActionError
  invalid_deploy : String → ActionError
  input_required : ActionError

abbrev pub of_action {ℓ} : {A : Type ℓ} → Result Invalid A → Result ActionError A
of_action (err problem) = err (invalid_action problem)
of_action (ok a) = ok a

abbrev pub of_deploy {ℓ} : {A : Type ℓ} → Result String A → Result ActionError A
of_deploy (err problem) = err (invalid_deploy problem)
of_deploy (ok a) = ok a

module _ (is_hex_address positive_rat parses_ip : String → Bool) (library : DecimalLibrary) where
  unfoldable pub marshal_msgpack : L1Action → Result ActionError (List Call)
  marshal_msgpack (cancel x0) = ok (cancel_action x0)
  marshal_msgpack (order x0) = ok (order_action x0)
  marshal_msgpack (cancel_by_cloid x0) = ok (cancel_by_cloid_action x0)
  marshal_msgpack (schedule_cancel x0) = ok (schedule_cancel_action x0)
  marshal_msgpack (twap_order x0) = ok (twap_order_action x0)
  marshal_msgpack (twap_cancel x0 x1) = ok (twap_cancel_action x0 x1)
  marshal_msgpack (subaccount_transfer x0 x1 x2) = ok (subaccount_transfer_action x0 x1 x2)
  marshal_msgpack (subaccount_spot_transfer x0 x1 x2 x3) =
      ok (subaccount_spot_transfer_action x0 x1 x2 x3)
  marshal_msgpack (vault_transfer x0 x1 x2) = ok (vault_transfer_action x0 x1 x2)
  marshal_msgpack (batch_modify x0) = ok (batch_modify_action x0)
  marshal_msgpack (update_leverage x0 x1 x2) = ok (update_leverage_action x0 x1 x2)
  marshal_msgpack (update_isolated_margin x0 x1 x2) = ok (update_isolated_margin_action x0 x1 x2)
  marshal_msgpack (top_up_isolated_only_margin x0 x1) =
      ok (top_up_isolated_only_margin_action x0 x1)
  marshal_msgpack (reserve_request_weight x0) = ok (reserve_request_weight_action x0)
  marshal_msgpack noop = ok noop_action
  marshal_msgpack agent_enable_dex_abstraction = ok agent_enable_dex_abstraction_action
  marshal_msgpack (agent_set_abstraction x0) = ok (agent_set_abstraction_action x0)
  marshal_msgpack (agent_send_asset x0) =
      of_action (agent_send_action is_hex_address positive_rat x0)
  marshal_msgpack (authorize_aqa_role x0 x1) = of_action (authorize_aqa_role_action x0 x1)
  marshal_msgpack (liquidator_transfer x0 x1 x2) = of_action (liquidator_transfer_action x0 x1 x2)
  marshal_msgpack (user_outcome x0) = of_action (user_outcome_action positive_rat x0)
  marshal_msgpack (validator_l1_stream x0) = ok (validator_l1_stream_action x0)
  marshal_msgpack claim_rewards = ok claim_rewards_action
  marshal_msgpack (set_referrer x0) = ok (set_referrer_action x0)
  marshal_msgpack (create_sub_account x0) = ok (create_sub_account_action x0)
  marshal_msgpack (create_vault x0 x1 x2 x3) = ok (create_vault_action x0 x1 x2 x3)
  marshal_msgpack (vault_modify x0 x1 x2) = ok (vault_modify_action x0 x1 x2)
  marshal_msgpack (vault_distribute x0 x1) = ok (vault_distribute_action x0 x1)
  marshal_msgpack (sub_account_modify x0 x1) = ok (sub_account_modify_action x0 x1)
  marshal_msgpack (set_display_name x0) = ok (set_display_name_action x0)
  marshal_msgpack (perp_deploy x0) = of_deploy (perp_deploy_action is_hex_address library x0)
  marshal_msgpack (spot_deploy x0) = of_deploy (spot_deploy_action is_hex_address library x0)
  marshal_msgpack (evm_user_modify x0) = ok (evm_user_modify_action x0)
  marshal_msgpack (gossip_priority_bid x0 x1 x2) = of_action (gossip_bid_action parses_ip x0 x1 x2)
  marshal_msgpack (finalize_evm_contract token none) = err input_required
  marshal_msgpack (finalize_evm_contract token (some input)) = ok (finalize_evm_action token input)

  unfoldable pub marshal_json : L1Action → Result ActionError Json
  marshal_json (cancel x0) = ok (cancel_action_json x0)
  marshal_json (order x0) = ok (order_action_json x0)
  marshal_json (cancel_by_cloid x0) = ok (cancel_by_cloid_action_json x0)
  marshal_json (schedule_cancel x0) = ok (schedule_cancel_action_json x0)
  marshal_json (twap_order x0) = ok (twap_order_action_json x0)
  marshal_json (twap_cancel x0 x1) = ok (twap_cancel_action_json x0 x1)
  marshal_json (subaccount_transfer x0 x1 x2) = ok (subaccount_transfer_action_json x0 x1 x2)
  marshal_json (subaccount_spot_transfer x0 x1 x2 x3) =
      ok (subaccount_spot_transfer_action_json x0 x1 x2 x3)
  marshal_json (vault_transfer x0 x1 x2) = ok (vault_transfer_action_json x0 x1 x2)
  marshal_json (batch_modify x0) = ok (batch_modify_action_json x0)
  marshal_json (update_leverage x0 x1 x2) = ok (update_leverage_action_json x0 x1 x2)
  marshal_json (update_isolated_margin x0 x1 x2) = ok (update_isolated_margin_action_json x0 x1 x2)
  marshal_json (top_up_isolated_only_margin x0 x1) =
      ok (top_up_isolated_only_margin_action_json x0 x1)
  marshal_json (reserve_request_weight x0) = ok (reserve_request_weight_action_json x0)
  marshal_json noop = ok noop_action_json
  marshal_json agent_enable_dex_abstraction = ok agent_enable_dex_abstraction_action_json
  marshal_json (agent_set_abstraction x0) = ok (agent_set_abstraction_action_json x0)
  marshal_json (agent_send_asset x0) =
      of_action (agent_send_action_json is_hex_address positive_rat x0)
  marshal_json (authorize_aqa_role x0 x1) = of_action (authorize_aqa_role_action_json x0 x1)
  marshal_json (liquidator_transfer x0 x1 x2) = of_action (liquidator_transfer_action_json x0 x1 x2)
  marshal_json (user_outcome x0) = of_action (user_outcome_action_json positive_rat x0)
  marshal_json (validator_l1_stream x0) = ok (validator_l1_stream_action_json x0)
  marshal_json claim_rewards = ok claim_rewards_action_json
  marshal_json (set_referrer x0) = ok (set_referrer_action_json x0)
  marshal_json (create_sub_account x0) = ok (create_sub_account_action_json x0)
  marshal_json (create_vault x0 x1 x2 x3) = ok (create_vault_action_json x0 x1 x2 x3)
  marshal_json (vault_modify x0 x1 x2) = ok (vault_modify_action_json x0 x1 x2)
  marshal_json (vault_distribute x0 x1) = ok (vault_distribute_action_json x0 x1)
  marshal_json (sub_account_modify x0 x1) = ok (sub_account_modify_action_json x0 x1)
  marshal_json (set_display_name x0) = ok (set_display_name_action_json x0)
  marshal_json (perp_deploy x0) = of_deploy (perp_deploy_action_json is_hex_address library x0)
  marshal_json (spot_deploy x0) = of_deploy (spot_deploy_action_json is_hex_address library x0)
  marshal_json (evm_user_modify x0) = ok (evm_user_modify_action_json x0)
  marshal_json (gossip_priority_bid x0 x1 x2) =
      of_action (gossip_bid_action_json parses_ip x0 x1 x2)
  marshal_json (finalize_evm_contract token none) = err input_required
  marshal_json (finalize_evm_contract token (some input)) =
      ok (finalize_evm_action_json token input)
