-- ===== src/Signing/Validators.antt =====
-- The two validator unions of signing/compat_actions.go. Their JSON is a Go map, which is written
-- by its sorted keys. An account's test for zero and its text in lower case, and net.ParseIP, are
-- parameters.
pub mod Reordered
mod Examples
use hypersdk_go.Json.{Json, Fields, null, boolean, number, text, object, done, field}
use hypersdk_go.Prelude.Int.{pos}
use hypersdk_go.Prelude.{
  ℕ, Bool, true, not, ◌||◌, Option, none, some, String, string_eq, nat_eq, ◌==◌, List, [], ◌∷◌,
  if◌then◌else◌, Result, ok, err, ◌>>=◌,
}
use hypersdk_go.Signing.Encoder.{
  Call, encode_map_len, encode_string, encode_uint, encode_bool, encode_nil, encode_pairs,
  encode_pointer, json_pointer,
}
use hypersdk_go.Signing.Deploy.Checks.{Check, require, text_lt}

pub data CSignerVariant : Type 0 where
  jail_self unjail_self : CSignerVariant

pub record CValidatorProfile (Address : Type 0) : Type 0 where
  pub node_ip : String
  pub name : String
  pub description : String
  pub delegations_disabled : Bool
  pub commission_bps : ℕ
  pub signer : Address

pub record CValidatorRegister (Address : Type 0) : Type 0 where
  pub profile : CValidatorProfile Address
  pub unjailed : Bool
  pub initial_wei : ℕ

pub record CValidatorChangeProfile (Address : Type 0) : Type 0 where
  pub node_ip : Option String
  pub name : Option String
  pub description : Option String
  pub unjailed : Bool
  pub disable_delegations : Option Bool
  pub commission_bps : Option ℕ
  pub signer : Option Address

pub data CValidatorVariant (Address : Type 0) : Type 0 where
  unregister : CValidatorVariant Address
  register : CValidatorRegister Address → CValidatorVariant Address
  change_profile : CValidatorChangeProfile Address → CValidatorVariant Address

-- `json.Marshal` of the map of one entry to which `"type"` is added.
unfoldable pub json_map : String → String → Json → Json
json_map kind key value =
    if text_lt key "type"
    then object (field key value (field "type" (text kind) done))
    else object (field "type" (text kind) (field key value done))

abbrev pub action_calls : String → String → List Call → List Call
action_calls kind key value =
    encode_map_len 2 ∷ encode_string "type" ∷ encode_string kind ∷ encode_string key ∷ value

abbrev pub signer_key : CSignerVariant → String
signer_key jail_self = "jailSelf"
signer_key unjail_self = "unjailSelf"

-- `CSignerAction`; with no variant it is refused.
unfoldable pub c_signer_action : Option CSignerVariant → Result String (List Call)
c_signer_action none = err "validator signer action variant is required"
c_signer_action (some v) = ok (action_calls "CSignerAction" (signer_key v) (encode_nil ∷ []))

unfoldable pub c_signer_action_json : Option CSignerVariant → Result String Json
c_signer_action_json none = err "validator signer action variant is required"
c_signer_action_json (some v) = ok (json_map "CSignerAction" (signer_key v) null)

-- A node's IP is a map of one entry.
abbrev pub encode_ip : String → List Call
encode_ip ip = encode_map_len 1 ∷ encode_string "Ip" ∷ encode_string ip ∷ []

abbrev pub ip_json : String → Json
ip_json ip = object (field "Ip" (text ip) done)

abbrev pub variant_key : {Address : Type 0} → CValidatorVariant Address → String
variant_key unregister = "unregister"
variant_key (register a) = "register"
variant_key (change_profile a) = "changeProfile"

module _ {Address : Type 0} (is_zero : Address → Bool) (parses_ip : String → Bool) where
  -- `validateRequired`
  unfoldable pub validate_required : CValidatorProfile Address → Check
  validate_required p =
      require
        (not (not (parses_ip p.node_ip) || p.name == "" || p.description == "" || is_zero p.signer))
        "validator profile requires valid IP, name, description, and signer"

  abbrev passes {ℓ} : {A : Type ℓ} → (A → Bool) → Option A → Bool
  passes test none = true
  passes test (some a) = test a

  unfoldable pub validate_variant : CValidatorVariant Address → Check
  validate_variant unregister = ok tt
  validate_variant (register a) = do
    _ ← validate_required a.profile
    require (not (a.initial_wei == 0)) "validator initial wei must be positive"
  validate_variant (change_profile a) = do
    _ ← require (passes parses_ip a.node_ip) "validator node IP is invalid"
    require (passes (λ s. not (is_zero s)) a.signer) "validator signer is invalid"

module _ {Address : Type 0} (lower_hex : Address → String) where
  unfoldable pub validator_profile : CValidatorProfile Address → List Call
  validator_profile p =
      encode_map_len 6
      ∷ encode_pairs (
          ("node_ip", encode_ip p.node_ip)
          ∷ ("name", encode_string p.name ∷ [])
          ∷ ("description", encode_string p.description ∷ [])
          ∷ ("delegations_disabled", encode_bool p.delegations_disabled ∷ [])
          ∷ ("commission_bps", encode_uint p.commission_bps ∷ [])
          ∷ ("signer", encode_string (lower_hex p.signer) ∷ [])
          ∷ [])

  unfoldable pub validator_profile_json : CValidatorProfile Address → Json
  validator_profile_json p = object (
      field "node_ip" (ip_json p.node_ip) (
        field "name" (text p.name) (
          field "description" (text p.description) (
            field "delegations_disabled" (boolean p.delegations_disabled) (
              field "commission_bps" (number (pos p.commission_bps))
                (field "signer" (text (lower_hex p.signer)) done))))))

  -- `cValidatorChangeProfileWire`: a field that is missing is an explicit null.
  unfoldable pub change_profile_wire : CValidatorChangeProfile Address → List Call
  change_profile_wire a =
      encode_map_len 7
      ∷ encode_pairs (
          ("node_ip", encode_pointer encode_ip a.node_ip)
          ∷ ("name", encode_pointer (λ s. encode_string s ∷ []) a.name)
          ∷ ("description", encode_pointer (λ s. encode_string s ∷ []) a.description)
          ∷ ("unjailed", encode_bool a.unjailed ∷ [])
          ∷ ("disable_delegations", encode_pointer (λ b. encode_bool b ∷ []) a.disable_delegations)
          ∷ ("commission_bps", encode_pointer (λ n. encode_uint n ∷ []) a.commission_bps)
          ∷ ("signer", encode_pointer (λ s. encode_string (lower_hex s) ∷ []) a.signer)
          ∷ [])

  unfoldable pub change_profile_wire_json : CValidatorChangeProfile Address → Json
  change_profile_wire_json a = object (
      field "node_ip" (json_pointer ip_json a.node_ip) (
        field "name" (json_pointer text a.name) (
          field "description" (json_pointer text a.description) (
            field "unjailed" (boolean a.unjailed) (
              field "disable_delegations" (json_pointer boolean a.disable_delegations) (
                field "commission_bps" (json_pointer (λ n. number (pos n)) a.commission_bps)
                  (field "signer" (json_pointer (λ s. text (lower_hex s)) a.signer) done)))))))

  unfoldable pub variant_calls : CValidatorVariant Address → List Call
  variant_calls unregister = encode_nil ∷ []
  variant_calls (register a) =
      encode_map_len 3
      ∷ encode_pairs (
          ("profile", validator_profile a.profile)
          ∷ ("unjailed", encode_bool a.unjailed ∷ [])
          ∷ ("initial_wei", encode_uint a.initial_wei ∷ [])
          ∷ [])
  variant_calls (change_profile a) = change_profile_wire a

  unfoldable pub variant_json : CValidatorVariant Address → Json
  variant_json unregister = null
  variant_json (register a) = object (
      field "profile" (validator_profile_json a.profile) (
        field "unjailed" (boolean a.unjailed)
          (field "initial_wei" (number (pos a.initial_wei)) done)))
  variant_json (change_profile a) = change_profile_wire_json a

module _ {Address : Type 0} (lower_hex : Address → String) (is_zero : Address → Bool)
    (parses_ip : String → Bool) where
  -- `CValidatorAction`
  unfoldable pub c_validator_action : Option (CValidatorVariant Address) → Result String (List Call)
  c_validator_action none = err "validator action variant is required"
  c_validator_action (some v) = validate_variant is_zero parses_ip v >>= λ _.
      ok (action_calls "CValidatorAction" (variant_key v) (variant_calls lower_hex v))

  unfoldable pub c_validator_action_json : Option (CValidatorVariant Address) → Result String Json
  c_validator_action_json none = err "validator action variant is required"
  c_validator_action_json (some v) = validate_variant is_zero parses_ip v >>= λ _.
      ok (json_map "CValidatorAction" (variant_key v) (variant_json lower_hex v))
