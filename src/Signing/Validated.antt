-- ===== src/Signing/Validated.antt =====
-- What the validated actions of signing/advanced_actions.go and signing/compat_actions.go sign is
-- what they post, and both refuse the same actions.
use hypersdk_go.Json.{Json, text, object, field}
use hypersdk_go.Prelude.{
  ℕ, Bool, Option, none, some, String, List, ◌∷◌, Result, ok, err, ◌>>=◌, ◌≡◌, refl, append-nil,
}
use hypersdk_go.Signing.Encoder.{Call, encode_map_len, encode_string}
use hypersdk_go.Signing.Reader.{print}
use hypersdk_go.Signing.Agreement.{Agrees, pointer-Agrees}
use hypersdk_go.Signing.Advanced.{
  AgentSend, validate_agent_send, agent_send_action, agent_send_action_json, validate_aqa_role,
  authorize_aqa_role_action, authorize_aqa_role_action_json, validate_liquidator_transfer,
  liquidator_transfer_action, liquidator_transfer_action_json, validate_gossip_bid,
  gossip_bid_action, gossip_bid_action_json,
}
use hypersdk_go.Signing.UserOutcomes.{
  UserOutcomeAction, validate_user_outcome, user_outcome_action, user_outcome_action_json,
  user_outcome_fields, user_outcome_fields_json, SplitOutcome, MergeOutcome, MergeQuestion,
  NegateOutcome, split_outcome_json, merge_outcome_json, merge_question_json, negate_outcome_json,
  encode_text,
}

-- Both forms of an action are refused for the same reason, or agree.
abbrev pub BothAgree : {Error : Type 0} → Result Error (List Call) → Result Error Json → Type 0
BothAgree (err x) (err y) = x ≡ y
BothAgree (ok cs) (ok j) = Agrees cs j
BothAgree _ _ = ⊥

pub check-BothAgree :
    {Error : Type 0} (check : Result Error (Unit {0})) (cs : List Call) (j : Json)
    → (check ≡ ok tt → Agrees cs j)
    → BothAgree (check >>= λ _. ok cs) (check >>= λ _. ok j)
check-BothAgree (err x) cs j h = refl
check-BothAgree (ok tt) cs j h = h refl

pub agent_send_action-BothAgree :
    (is_hex_address positive_rat : String → Bool) (a : AgentSend)
    → BothAgree
        (agent_send_action is_hex_address positive_rat a)
        (agent_send_action_json is_hex_address positive_rat a)
unfolding agent_send_action agent_send_action_json print
agent_send_action-BothAgree is_hex_address positive_rat a =
    check-BothAgree (validate_agent_send is_hex_address positive_rat a) _ _ (λ _. refl)

pub authorize_aqa_role_action-BothAgree :
    (token : ℕ) (role : String)
    → BothAgree (authorize_aqa_role_action token role) (authorize_aqa_role_action_json token role)
unfolding authorize_aqa_role_action authorize_aqa_role_action_json print
authorize_aqa_role_action-BothAgree token role =
    check-BothAgree (validate_aqa_role role) _ _ (λ _. refl)

pub liquidator_transfer_action-BothAgree :
    (dex : String) (ntl : ℕ) (is_deposit : Bool)
    → BothAgree
        (liquidator_transfer_action dex ntl is_deposit)
        (liquidator_transfer_action_json dex ntl is_deposit)
unfolding liquidator_transfer_action liquidator_transfer_action_json print
liquidator_transfer_action-BothAgree dex ntl is_deposit =
    check-BothAgree (validate_liquidator_transfer dex ntl) _ _ (λ _. refl)

pub gossip_bid_action-BothAgree :
    (parses_ip : String → Bool) (slot_id : ℕ) (ip : String) (max_gas : ℕ)
    → BothAgree
        (gossip_bid_action parses_ip slot_id ip max_gas)
        (gossip_bid_action_json parses_ip slot_id ip max_gas)
unfolding gossip_bid_action gossip_bid_action_json print
gossip_bid_action-BothAgree parses_ip slot_id ip max_gas =
    check-BothAgree (validate_gossip_bid parses_ip slot_id ip max_gas) _ _ (λ _. refl)

-- Some variant is set.
abbrev Chosen :
    Option SplitOutcome → Option MergeOutcome → Option MergeQuestion → Option NegateOutcome → Type 0
Chosen none none none none = ⊥
Chosen _ _ _ _ = Unit

one_variant_set :
    (s : Option SplitOutcome) (m : Option MergeOutcome) (q : Option MergeQuestion)
    (n : Option NegateOutcome)
    → Chosen s m q n
    → Agrees
        (encode_map_len 2
          ∷ encode_string "type"
          ∷ encode_string "userOutcome"
          ∷ user_outcome_fields s m q n)
        (object (field "type" (text "userOutcome") (user_outcome_fields_json s m q n)))
unfolding user_outcome_fields user_outcome_fields_json print split_outcome_json merge_outcome_json
    merge_question_json negate_outcome_json
one_variant_set (some v) m q n h = refl
one_variant_set none (some v) q n h =
    simp (pointer-Agrees encode_text text v.amount (λ _. refl), append-nil) refl
one_variant_set none none (some v) n h =
    simp (pointer-Agrees encode_text text v.amount (λ _. refl), append-nil) refl
one_variant_set none none none (some v) h = refl
one_variant_set none none none none h = absurd h

valid-Chosen :
    (positive_rat : String → Bool) (s : Option SplitOutcome) (m : Option MergeOutcome)
    (q : Option MergeQuestion) (n : Option NegateOutcome)
    → validate_user_outcome positive_rat
        (record { split_outcome = s; merge_outcome = m; merge_question = q; negate_outcome = n })
      ≡ ok tt
    → Chosen s m q n
unfolding validate_user_outcome
valid-Chosen positive_rat none none none none h = cc
valid-Chosen positive_rat (some v) m q n h = tt
valid-Chosen positive_rat none (some v) q n h = tt
valid-Chosen positive_rat none none (some v) n h = tt
valid-Chosen positive_rat none none none (some v) h = tt

-- A valid outcome action has one variant, and its payload has the pairs it announces.
user_outcome-Agrees :
    (positive_rat : String → Bool) (a : UserOutcomeAction)
    → validate_user_outcome positive_rat a ≡ ok tt
    → Agrees
        (encode_map_len 2
          ∷ encode_string "type"
          ∷ encode_string "userOutcome"
          ∷ user_outcome_fields a.split_outcome a.merge_outcome a.merge_question a.negate_outcome)
        (object (
          field "type" (text "userOutcome") (
            user_outcome_fields_json a.split_outcome a.merge_outcome a.merge_question
              a.negate_outcome)))
unfolding print
user_outcome-Agrees positive_rat a valid =
    one_variant_set a.split_outcome a.merge_outcome a.merge_question a.negate_outcome
      (valid-Chosen positive_rat _ _ _ _ valid)

pub user_outcome_action-BothAgree :
    (positive_rat : String → Bool) (a : UserOutcomeAction)
    → BothAgree (user_outcome_action positive_rat a) (user_outcome_action_json positive_rat a)
unfolding user_outcome_action user_outcome_action_json
user_outcome_action-BothAgree positive_rat a =
    check-BothAgree (validate_user_outcome positive_rat a) _ _ (user_outcome-Agrees positive_rat a)
