-- ===== src/Signing/UserOutcomes.antt =====
-- The outcome share action of signing/advanced_actions.go: four variants, of which exactly one is
-- set.
use hypersdk_go.Json.{Json, Fields, number, text, object, done, field}
use hypersdk_go.Prelude.Int.{pos}
use hypersdk_go.Prelude.{
  ℕ, ◌+◌, Bool, Option, none, some, String, nat_eq, ◌==◌, List, [], ◌∷◌, if◌then◌else◌, Result, ok,
  err, ◌>>=◌, true,
}
use hypersdk_go.Signing.Encoder.{
  Call, encode_map_len, encode_string, encode_uint, encode_pairs, encode_pointer, json_pointer,
}
use hypersdk_go.Signing.Advanced.{
  Invalid, Check, require, split_amount, merge_amount, question_amount, negate_amount,
  not_one_variant,
}

pub record SplitOutcome : Type 0 where
  pub outcome : ℕ
  pub amount : String

pub record MergeOutcome : Type 0 where
  pub outcome : ℕ
  pub amount : Option String

pub record MergeQuestion : Type 0 where
  pub question : ℕ
  pub amount : Option String

pub record NegateOutcome : Type 0 where
  pub question : ℕ
  pub outcome : ℕ
  pub amount : String

pub record UserOutcomeAction : Type 0 where
  pub split_outcome : Option SplitOutcome
  pub merge_outcome : Option MergeOutcome
  pub merge_question : Option MergeQuestion
  pub negate_outcome : Option NegateOutcome

-- One step of the count of variants: a set variant passes its own test and counts.
abbrev count_variant {ℓ} : {A : Type ℓ} → (A → Bool) → Invalid → Option A → ℕ → Result Invalid ℕ
count_variant test problem none variants = ok variants
count_variant test problem (some a) variants = if test a then ok (variants + 1) else err problem

abbrev optional_amount : (String → Bool) → Option String → Bool
optional_amount positive_rat none = true
optional_amount positive_rat (some amount) = positive_rat amount

-- `encodeOutcomeFields`
abbrev pub encode_outcome_fields : String → ℕ → String → List Call → List Call
encode_outcome_fields first_key first_value second_key second_value =
    encode_map_len 2
    ∷ encode_string first_key
    ∷ encode_uint first_value
    ∷ encode_string second_key
    ∷ second_value

abbrev pub encode_text : String → List Call
encode_text s = encode_string s ∷ []

-- The one variant, after `"type"`. With none set, which `validate` refuses, the code would stop at
-- a nil pointer.
unfoldable pub user_outcome_fields :
    Option SplitOutcome
    → Option MergeOutcome
    → Option MergeQuestion
    → Option NegateOutcome
    → List Call
user_outcome_fields (some v) _ _ _ =
    encode_string "splitOutcome"
    ∷ encode_outcome_fields "outcome" v.outcome "amount" (encode_text v.amount)
user_outcome_fields none (some v) _ _ =
    encode_string "mergeOutcome"
    ∷ encode_outcome_fields "outcome" v.outcome "amount" (encode_pointer encode_text v.amount)
user_outcome_fields none none (some v) _ =
    encode_string "mergeQuestion"
    ∷ encode_outcome_fields "question" v.question "amount" (encode_pointer encode_text v.amount)
user_outcome_fields none none none (some v) =
    encode_string "negateOutcome"
    ∷ encode_map_len 3
    ∷ encode_pairs (
        ("question", encode_uint v.question ∷ [])
        ∷ ("outcome", encode_uint v.outcome ∷ [])
        ∷ ("amount", encode_string v.amount ∷ [])
        ∷ [])
user_outcome_fields none none none none = []

-- The struct tags of each variant; the last struct has its pointer, which is null for nil.
unfoldable pub split_outcome_json : SplitOutcome → Json
split_outcome_json v =
    object (field "outcome" (number (pos v.outcome)) (field "amount" (text v.amount) done))

unfoldable pub merge_outcome_json : MergeOutcome → Json
merge_outcome_json v =
    object
      (field "outcome" (number (pos v.outcome)) (field "amount" (json_pointer text v.amount) done))

unfoldable pub merge_question_json : MergeQuestion → Json
merge_question_json v =
    object (
      field "question" (number (pos v.question)) (field "amount" (json_pointer text v.amount) done))

unfoldable pub negate_outcome_json : NegateOutcome → Json
negate_outcome_json v = object (
    field "question" (number (pos v.question))
      (field "outcome" (number (pos v.outcome)) (field "amount" (text v.amount) done)))

unfoldable pub user_outcome_fields_json :
    Option SplitOutcome → Option MergeOutcome → Option MergeQuestion → Option NegateOutcome → Fields
user_outcome_fields_json (some v) _ _ _ = field "splitOutcome" (split_outcome_json v) done
user_outcome_fields_json none (some v) _ _ = field "mergeOutcome" (merge_outcome_json v) done
user_outcome_fields_json none none (some v) _ = field "mergeQuestion" (merge_question_json v) done
user_outcome_fields_json none none none negate =
    field "negateOutcome" (json_pointer negate_outcome_json negate) done

module _ (positive_rat : String → Bool) where
  unfoldable pub validate_user_outcome : UserOutcomeAction → Check
  validate_user_outcome a = do
    one ← count_variant (λ v. positive_rat v.amount) split_amount a.split_outcome 0
    two ←
        count_variant (λ v. optional_amount positive_rat v.amount) merge_amount a.merge_outcome one
    three ←
        count_variant (λ v. optional_amount positive_rat v.amount) question_amount a.merge_question
          two
    variants ← count_variant (λ v. positive_rat v.amount) negate_amount a.negate_outcome three
    require (variants == 1) not_one_variant

  unfoldable pub user_outcome_action : UserOutcomeAction → Result Invalid (List Call)
  user_outcome_action a = validate_user_outcome a >>= λ _. ok (
      encode_map_len 2
      ∷ encode_string "type"
      ∷ encode_string "userOutcome"
      ∷ user_outcome_fields a.split_outcome a.merge_outcome a.merge_question a.negate_outcome)

  unfoldable pub user_outcome_action_json : UserOutcomeAction → Result Invalid Json
  user_outcome_action_json a = validate_user_outcome a >>= λ _. ok (
      object (
        field "type" (text "userOutcome") (
          user_outcome_fields_json a.split_outcome a.merge_outcome a.merge_question
            a.negate_outcome)))
