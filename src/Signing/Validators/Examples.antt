-- ===== src/Signing/Validators/Examples.antt =====
-- Validator actions of signing/compat_actions.go, signed and posted.
use hypersdk_go.Json.{null, text, object, done, field}
use hypersdk_go.Prelude.{String, string_eq, ◌==◌, some, true, false, ok, err, ◌≡◌, refl}
use hypersdk_go.Signing.Validated.{BothAgree}
use hypersdk_go.Signing.Validators.{
  CValidatorVariant, register, unregister, jail_self, json_map, c_signer_action,
  c_signer_action_json, variant_json, validate_required, validate_variant, c_validator_action,
  c_validator_action_json,
}
use hypersdk_go.Signing.Deploy.Checks.{codes_lt}
use hypersdk_go.Signing.Validators.Reordered.{reordered, validator_actions-BothAgree}

abbrev joining : CValidatorVariant String
joining = register (record {
  profile = record {
    node_ip = "10.0.0.1";
    name = "node";
    description = "a node";
    delegations_disabled = false;
    commission_bps = 300;
    signer = "0xab";
  };
  unjailed = true;
  initial_wei = 5;
})

validator_actions-BothAgree_example :
    BothAgree
      (c_validator_action (λ a. a) (λ a. a == "") (λ ip. true) (some joining))
      (reordered (c_validator_action_json (λ a. a) (λ a. a == "") (λ ip. true) (some joining)))
    × BothAgree
        (c_signer_action (some jail_self))
        (reordered (c_signer_action_json (some jail_self)))
validator_actions-BothAgree_example =
    validator_actions-BothAgree (λ a. a) (λ a. a == "") (λ ip. true) (some joining) (some jail_self)

-- The type stands behind the keys that are before it in the alphabet, and before the others.
jail_posted :
    c_signer_action_json (some jail_self)
    ≡ ok (object (field "jailSelf" null (field "type" (text "CSignerAction") done)))
unfolding c_signer_action_json json_map codes_lt
jail_posted = refl

unregister_posted :
    c_validator_action_json (λ (a : String). a) (λ a. a == "") (λ ip. true) (some unregister)
    ≡ ok (object (field "type" (text "CValidatorAction") (field "unregister" null done)))
unfolding c_validator_action_json validate_variant variant_json json_map codes_lt
unregister_posted = refl

-- Without an IP that parses a profile is refused.
no_ip :
    c_validator_action (λ (a : String). a) (λ a. a == "") (λ ip. false) (some joining)
    ≡ err "validator profile requires valid IP, name, description, and signer"
unfolding c_validator_action validate_variant validate_required
no_ip = refl
