-- ===== src/Signing/Forms.antt =====
-- The posted form of every L1 action but those of Validators says what its signed form says.
use hypersdk_go.Json.{Json}
use hypersdk_go.Prelude.{ℕ, Bool, Option, none, some, String, List, Result, ok, err, refl, ap}
use hypersdk_go.Signing.Encoder.{Call}
use hypersdk_go.Signing.Reader.{print}
use hypersdk_go.Signing.Agreement.{Agrees}
use hypersdk_go.Signing.Validated.{
  BothAgree, check-BothAgree, agent_send_action-BothAgree, authorize_aqa_role_action-BothAgree,
  liquidator_transfer_action-BothAgree, gossip_bid_action-BothAgree, user_outcome_action-BothAgree,
}
use hypersdk_go.Signing.Trading.{
  cancel_action-Agrees, cancel_by_cloid_action-Agrees, order_action-Agrees,
  batch_modify_action-Agrees, schedule_cancel_action-Agrees, twap_order_action-Agrees,
  twap_cancel_action-Agrees,
}
use hypersdk_go.Signing.Accounts.{
  subaccount_transfer_action, subaccount_transfer_action_json, subaccount_spot_transfer_action,
  subaccount_spot_transfer_action_json, vault_transfer_action, vault_transfer_action_json,
  update_leverage_action, update_leverage_action_json, update_isolated_margin_action,
  update_isolated_margin_action_json, top_up_isolated_only_margin_action,
  top_up_isolated_only_margin_action_json, reserve_request_weight_action,
  reserve_request_weight_action_json, noop_action, noop_action_json, set_referrer_action,
  set_referrer_action_json, create_sub_account_action, create_sub_account_action_json,
  create_vault_action, create_vault_action_json, vault_modify_action, vault_modify_action_json,
  vault_distribute_action, vault_distribute_action_json, sub_account_modify_action,
  sub_account_modify_action_json, set_display_name_action, set_display_name_action_json,
}
use hypersdk_go.Signing.Advanced.{Invalid}
use hypersdk_go.Signing.Agents.{
  agent_enable_dex_abstraction_action, agent_enable_dex_abstraction_action_json,
  agent_set_abstraction_action, agent_set_abstraction_action_json, validator_l1_stream_action,
  validator_l1_stream_action_json, claim_rewards_action, claim_rewards_action_json,
  evm_user_modify_action, evm_user_modify_action_json, FinalizeEvmInput, finalize_evm_input,
  finalize_evm_input_json, finalize_evm_action, finalize_evm_action_json, finalize_create,
  first_storage_slot, custom_storage_slot,
}
use hypersdk_go.Signing.Actions.{
  L1Action, of_action, of_deploy, marshal_msgpack, marshal_json, cancel, order, cancel_by_cloid,
  schedule_cancel, twap_order, twap_cancel, subaccount_transfer, subaccount_spot_transfer,
  vault_transfer, batch_modify, update_leverage, update_isolated_margin,
  top_up_isolated_only_margin, reserve_request_weight, noop, agent_enable_dex_abstraction,
  agent_set_abstraction, agent_send_asset, authorize_aqa_role, liquidator_transfer, user_outcome,
  validator_l1_stream, claim_rewards, set_referrer, create_sub_account, create_vault, vault_modify,
  vault_distribute, sub_account_modify, set_display_name, perp_deploy, spot_deploy, evm_user_modify,
  gossip_priority_bid, finalize_evm_contract, invalid_action, invalid_deploy,
}
use hypersdk_go.Signing.Deploy.Checks.{DecimalLibrary}
use hypersdk_go.Signing.Deploy.PerpActions.{PerpDeployVariant, perp_deploy_key}
use hypersdk_go.Signing.Deploy.PerpChecks.{
  validate_perp_deploy, perp_deploy_action, perp_deploy_action_json,
}
use hypersdk_go.Signing.Deploy.SpotActions.{
  SpotDeployVariant, spot_deploy_key, validate_spot_deploy, spot_deploy_action,
  spot_deploy_action_json,
}
use hypersdk_go.Signing.Deploy.Forms.{deploy-Agrees, perp_variant-Agrees}
use hypersdk_go.Signing.Deploy.SpotForms.{spot_variant-Agrees}

vault_modify_action-Agrees :
    (vault_address : String) (allow_deposits always_close : Option Bool)
    → Agrees
        (vault_modify_action vault_address allow_deposits always_close)
        (vault_modify_action_json vault_address allow_deposits always_close)
unfolding vault_modify_action vault_modify_action_json print
vault_modify_action-Agrees vault_address none none = refl
vault_modify_action-Agrees vault_address none (some b) = refl
vault_modify_action-Agrees vault_address (some a) none = refl
vault_modify_action-Agrees vault_address (some a) (some b) = refl

finalize_evm_action-Agrees :
    (token : ℕ) (input : FinalizeEvmInput)
    → Agrees (finalize_evm_action token input) (finalize_evm_action_json token input)
unfolding finalize_evm_action finalize_evm_action_json finalize_evm_input finalize_evm_input_json
    print
finalize_evm_action-Agrees token (finalize_create nonce) = refl
finalize_evm_action-Agrees token first_storage_slot = refl
finalize_evm_action-Agrees token custom_storage_slot = refl

of_action-BothAgree :
    (cs : Result Invalid (List Call)) (j : Result Invalid Json)
    → BothAgree cs j
    → BothAgree (of_action cs) (of_action j)
of_action-BothAgree (err x) (err y) h = ap invalid_action h
of_action-BothAgree (ok cs) (ok j) h = h
of_action-BothAgree (err x) (ok j) h = absurd h
of_action-BothAgree (ok cs) (err y) h = absurd h

of_deploy-BothAgree :
    (cs : Result String (List Call)) (j : Result String Json)
    → BothAgree cs j
    → BothAgree (of_deploy cs) (of_deploy j)
of_deploy-BothAgree (err x) (err y) h = ap invalid_deploy h
of_deploy-BothAgree (ok cs) (ok j) h = h
of_deploy-BothAgree (err x) (ok j) h = absurd h
of_deploy-BothAgree (ok cs) (err y) h = absurd h

module _ (is_hex_address positive_rat parses_ip : String → Bool) (library : DecimalLibrary) where
  perp_deploy_action-BothAgree :
      (variant : Option PerpDeployVariant)
      → BothAgree
          (perp_deploy_action is_hex_address library variant)
          (perp_deploy_action_json is_hex_address library variant)
  unfolding perp_deploy_action perp_deploy_action_json
  perp_deploy_action-BothAgree none = refl
  perp_deploy_action-BothAgree (some variant) =
      check-BothAgree (validate_perp_deploy is_hex_address library variant) _ _ (λ _.
        deploy-Agrees "perpDeploy" (perp_deploy_key variant) _ _ (perp_variant-Agrees variant))

  spot_deploy_action-BothAgree :
      (variant : Option SpotDeployVariant)
      → BothAgree
          (spot_deploy_action is_hex_address library variant)
          (spot_deploy_action_json is_hex_address library variant)
  unfolding spot_deploy_action spot_deploy_action_json
  spot_deploy_action-BothAgree none = refl
  spot_deploy_action-BothAgree (some variant) =
      check-BothAgree (validate_spot_deploy is_hex_address library variant) _ _ (λ _.
        deploy-Agrees "spotDeploy" (spot_deploy_key variant) _ _ (spot_variant-Agrees variant))

  -- For every L1 action but the two of validators, MarshalMsgpack and MarshalJSON either refuse it
  -- for the same reason, or the calls made on the encoder are exactly the items of the posted
  -- value: each map and array announces the number of pairs or elements that follow, and keys,
  -- their order and values are the same.
  pub marshal_msgpack-BothAgree :
      (a : L1Action)
      → BothAgree
          (marshal_msgpack is_hex_address positive_rat parses_ip library a)
          (marshal_json is_hex_address positive_rat parses_ip library a)
  unfolding marshal_msgpack marshal_json print subaccount_transfer_action
      subaccount_transfer_action_json subaccount_spot_transfer_action
      subaccount_spot_transfer_action_json vault_transfer_action vault_transfer_action_json
      update_leverage_action update_leverage_action_json update_isolated_margin_action
      update_isolated_margin_action_json top_up_isolated_only_margin_action
      top_up_isolated_only_margin_action_json reserve_request_weight_action
      reserve_request_weight_action_json noop_action noop_action_json
      agent_enable_dex_abstraction_action agent_enable_dex_abstraction_action_json
      agent_set_abstraction_action agent_set_abstraction_action_json validator_l1_stream_action
      validator_l1_stream_action_json claim_rewards_action claim_rewards_action_json
      set_referrer_action set_referrer_action_json create_sub_account_action
      create_sub_account_action_json create_vault_action create_vault_action_json
      vault_distribute_action vault_distribute_action_json sub_account_modify_action
      sub_account_modify_action_json set_display_name_action set_display_name_action_json
      evm_user_modify_action evm_user_modify_action_json
  marshal_msgpack-BothAgree (cancel x0) = cancel_action-Agrees x0
  marshal_msgpack-BothAgree (order x0) = order_action-Agrees x0
  marshal_msgpack-BothAgree (cancel_by_cloid x0) = cancel_by_cloid_action-Agrees x0
  marshal_msgpack-BothAgree (schedule_cancel x0) = schedule_cancel_action-Agrees x0
  marshal_msgpack-BothAgree (twap_order x0) = twap_order_action-Agrees x0
  marshal_msgpack-BothAgree (twap_cancel x0 x1) = twap_cancel_action-Agrees x0 x1
  marshal_msgpack-BothAgree (subaccount_transfer x0 x1 x2) = refl
  marshal_msgpack-BothAgree (subaccount_spot_transfer x0 x1 x2 x3) = refl
  marshal_msgpack-BothAgree (vault_transfer x0 x1 x2) = refl
  marshal_msgpack-BothAgree (batch_modify x0) = batch_modify_action-Agrees x0
  marshal_msgpack-BothAgree (update_leverage x0 x1 x2) = refl
  marshal_msgpack-BothAgree (update_isolated_margin x0 x1 x2) = refl
  marshal_msgpack-BothAgree (top_up_isolated_only_margin x0 x1) = refl
  marshal_msgpack-BothAgree (reserve_request_weight x0) = refl
  marshal_msgpack-BothAgree noop = refl
  marshal_msgpack-BothAgree agent_enable_dex_abstraction = refl
  marshal_msgpack-BothAgree (agent_set_abstraction x0) = refl
  marshal_msgpack-BothAgree (agent_send_asset x0) =
      of_action-BothAgree _ _ (agent_send_action-BothAgree is_hex_address positive_rat x0)
  marshal_msgpack-BothAgree (authorize_aqa_role x0 x1) =
      of_action-BothAgree _ _ (authorize_aqa_role_action-BothAgree x0 x1)
  marshal_msgpack-BothAgree (liquidator_transfer x0 x1 x2) =
      of_action-BothAgree _ _ (liquidator_transfer_action-BothAgree x0 x1 x2)
  marshal_msgpack-BothAgree (user_outcome x0) =
      of_action-BothAgree _ _ (user_outcome_action-BothAgree positive_rat x0)
  marshal_msgpack-BothAgree (validator_l1_stream x0) = refl
  marshal_msgpack-BothAgree claim_rewards = refl
  marshal_msgpack-BothAgree (set_referrer x0) = refl
  marshal_msgpack-BothAgree (create_sub_account x0) = refl
  marshal_msgpack-BothAgree (create_vault x0 x1 x2 x3) = refl
  marshal_msgpack-BothAgree (vault_modify x0 x1 x2) = vault_modify_action-Agrees x0 x1 x2
  marshal_msgpack-BothAgree (vault_distribute x0 x1) = refl
  marshal_msgpack-BothAgree (sub_account_modify x0 x1) = refl
  marshal_msgpack-BothAgree (set_display_name x0) = refl
  marshal_msgpack-BothAgree (perp_deploy x0) =
      of_deploy-BothAgree _ _ (perp_deploy_action-BothAgree x0)
  marshal_msgpack-BothAgree (spot_deploy x0) =
      of_deploy-BothAgree _ _ (spot_deploy_action-BothAgree x0)
  marshal_msgpack-BothAgree (evm_user_modify x0) = refl
  marshal_msgpack-BothAgree (gossip_priority_bid x0 x1 x2) =
      of_action-BothAgree _ _ (gossip_bid_action-BothAgree parses_ip x0 x1 x2)
  marshal_msgpack-BothAgree (finalize_evm_contract token none) = refl
  marshal_msgpack-BothAgree (finalize_evm_contract token (some input)) =
      finalize_evm_action-Agrees token input
