-- ===== src/Signing/Validators/Reordered.antt =====
-- What the validator actions of signing/compat_actions.go sign is what they post, but for the place
-- of the type.
use hypersdk_go.Json.{Json, Fields, null, boolean, number, text, object, done, field, get_field}
use hypersdk_go.Prelude.{
  Bool, false, Option, none, some, String, string_eq, ◌==◌, List, [], ◌∷◌, append-nil,
  if◌then◌else◌, Result, ok, err, ◌>>=◌, ◌≡◌, refl, Bool-cases, inl, inr,
}
use hypersdk_go.Prelude.Int.{pos}
use hypersdk_go.Signing.UserOutcomes.{encode_text}
use hypersdk_go.Signing.Encoder.{Call, encode_string, encode_uint, encode_bool, encode_nil}
use hypersdk_go.Signing.Reader.{items-append, print}
use hypersdk_go.Signing.Agreement.{Agrees, pointer-Agrees}
use hypersdk_go.Signing.Validated.{BothAgree}
use hypersdk_go.Signing.Deploy.Checks.{Check, text_lt}
use hypersdk_go.Signing.Validators.{
  CSignerVariant, jail_self, unjail_self, CValidatorProfile, CValidatorRegister,
  CValidatorChangeProfile, CValidatorVariant, unregister, register, change_profile, encode_ip,
  ip_json, json_map, action_calls, c_signer_action, c_signer_action_json, validator_profile,
  validator_profile_json, change_profile_wire, change_profile_wire_json, variant_key, variant_calls,
  variant_json, validate_variant, c_validator_action, c_validator_action_json,
}

-- The fields with a name left out, and then put first.
unfoldable pub without_field : String → Fields → Fields
without_field name done = done
without_field name (field key j fs) =
    let rest = without_field name fs in if key == name then rest else field key j rest

abbrev put_first : String → Option Json → Fields → Fields
put_first name none fs = fs
put_first name (some j) fs = field name j fs

unfoldable pub type_first : Json → Json
type_first (object fs) = object (put_first "type" (get_field "type" fs) (without_field "type" fs))
type_first j = j

abbrev pub reordered : Result String Json → Result String Json
reordered (err problem) = err problem
reordered (ok j) = ok (type_first j)

type_first-json_map :
    (kind key : String) (value : Json)
    → (key == "type") ≡ false
    → type_first (json_map kind key value)
      ≡ object (field "type" (text kind) (field key value done))
unfolding type_first json_map without_field get_field
type_first-json_map kind key value other = elim (Bool-cases (text_lt key "type")) [
  | inl before ↦ rw (before, other) refl
  | inr behind ↦ rw (behind, other) refl
]

action-Agrees :
    (kind key : String) (cs : List Call) (value : Json)
    → (key == "type") ≡ false
    → Agrees cs value
    → Agrees (action_calls kind key cs) (type_first (json_map kind key value))
unfolding print
action-Agrees kind key cs value other h =
    simp (type_first-json_map kind key value other, h, append-nil) refl

module _ {Address : Type 0} (lower_hex : Address → String) where
  profile-Agrees :
      (p : CValidatorProfile Address)
      → Agrees (validator_profile lower_hex p) (validator_profile_json lower_hex p)
  unfolding print validator_profile validator_profile_json
  profile-Agrees p = refl

  register-Agrees :
      (a : CValidatorRegister Address)
      → Agrees (variant_calls lower_hex (register a)) (variant_json lower_hex (register a))
  unfolding print variant_calls variant_json
  register-Agrees a = simp (items-append, profile-Agrees a.profile) refl

  change_profile-Agrees :
      (a : CValidatorChangeProfile Address)
      → Agrees (change_profile_wire lower_hex a) (change_profile_wire_json lower_hex a)
  unfolding print change_profile_wire change_profile_wire_json
  change_profile-Agrees a =
      simp
        (
          items-append,
          pointer-Agrees encode_ip ip_json a.node_ip (λ ip. refl),
          pointer-Agrees encode_text text a.name (λ s. refl),
          pointer-Agrees encode_text text a.description (λ s. refl),
          pointer-Agrees (λ b. encode_bool b ∷ []) boolean a.disable_delegations (λ b. refl),
          pointer-Agrees (λ n. encode_uint n ∷ []) (λ n. number (pos n)) a.commission_bps
              (λ n. refl),
          pointer-Agrees (λ x. encode_string (lower_hex x) ∷ []) (λ x. text (lower_hex x)) a.signer
              (λ s. refl),
        )
        refl

  variant-Agrees :
      (v : CValidatorVariant Address)
      → Agrees (variant_calls lower_hex v) (variant_json lower_hex v)
  unfolding print variant_calls variant_json
  variant-Agrees unregister = refl
  variant-Agrees (register a) = register-Agrees a
  variant-Agrees (change_profile a) = change_profile-Agrees a

  key-other : (v : CValidatorVariant Address) → (variant_key v == "type") ≡ false
  key-other unregister = refl
  key-other (register a) = refl
  key-other (change_profile a) = refl

  checked-BothAgree :
      (check : Check) (cs : List Call) (j : Json)
      → Agrees cs (type_first j)
      → BothAgree (check >>= λ _. ok cs) (reordered (check >>= λ _. ok j))
  checked-BothAgree (err x) cs j h = refl
  checked-BothAgree (ok tt) cs j h = h

  c_validator_action-BothAgree :
      (is_zero : Address → Bool) (parses_ip : String → Bool)
      (v : Option (CValidatorVariant Address))
      → BothAgree
          (c_validator_action lower_hex is_zero parses_ip v)
          (reordered (c_validator_action_json lower_hex is_zero parses_ip v))
  unfolding c_validator_action c_validator_action_json
  c_validator_action-BothAgree is_zero parses_ip none = refl
  c_validator_action-BothAgree is_zero parses_ip (some v) =
      checked-BothAgree (validate_variant is_zero parses_ip v) _ _ (
        action-Agrees "CValidatorAction" (variant_key v) (variant_calls lower_hex v)
          (variant_json lower_hex v) (key-other v) (variant-Agrees v))

c_signer_action-BothAgree :
    (v : Option CSignerVariant) → BothAgree (c_signer_action v) (reordered (c_signer_action_json v))
unfolding c_signer_action c_signer_action_json print
c_signer_action-BothAgree none = refl
c_signer_action-BothAgree (some jail_self) =
    action-Agrees "CSignerAction" "jailSelf" (encode_nil ∷ []) null refl refl
c_signer_action-BothAgree (some unjail_self) =
    action-Agrees "CSignerAction" "unjailSelf" (encode_nil ∷ []) null refl refl

-- The two forms of an action of a validator, or of its signer, are refused for the same reason, or
-- the calls made on the encoder are the items of the posted value with its type put first: the
-- value that is posted is a Go map, in which `"register"`, `"changeProfile"` and `"jailSelf"` come
-- before `"type"`.
pub validator_actions-BothAgree :
    {Address : Type 0} (lower_hex : Address → String) (is_zero : Address → Bool)
    (parses_ip : String → Bool) (v : Option (CValidatorVariant Address)) (s : Option CSignerVariant)
    → BothAgree
        (c_validator_action lower_hex is_zero parses_ip v)
        (reordered (c_validator_action_json lower_hex is_zero parses_ip v))
      × BothAgree (c_signer_action s) (reordered (c_signer_action_json s))
validator_actions-BothAgree lower_hex is_zero parses_ip v s =
    (c_validator_action-BothAgree lower_hex is_zero parses_ip v, c_signer_action-BothAgree s)
