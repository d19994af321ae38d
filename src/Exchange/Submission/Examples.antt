-- ===== src/Exchange/Submission/Examples.antt =====
-- Witnesses and runs for exchange/submit.go.
use hypersdk_go.Json.{Json, object, field, text, number, done}
use hypersdk_go.Prelude.Int.{pos}
use hypersdk_go.Signing.Users.{TypedData, user_action_network}
use hypersdk_go.Signing.Users.Actions.{
  UserAction, usd_send, validate_user_action, action_nonce, omit_outer_vault_address,
}
use hypersdk_go.Signing.Users.Typed.{user_typed_data, user_signed_typed_data}
use hypersdk_go.Signing.Users.Posted.{user_wire_fields, user_signed_wire}
use hypersdk_go.Signing.Users.Covers.{BothCover, user_signed_typed_data-BothCover}
use hypersdk_go.Exchange.Submission.Once.{Posts}
use hypersdk_go.Exchange.Submission.UserSigned.{
  Domain, compute_user_action_digest, submit_user_signed, Authentic, submit_user_signed-Posts,
}
use hypersdk_go.Prelude.{
  ℕ, true, string_eq, ◌==◌, Result, none, some, String, [], ◌∷◌, ok, err, ◌≡◌, refl,
}
use hypersdk_go.Exchange.Submission.{
  Bytes, Client, normalize_recovery_id, outer_vault_address, sign_and_post,
  submit_l1_at_nonce_with_outer, submit_l1_at_nonce, take_nonce, submit_l1_for, submit_l1,
  signer_required, verify_failed, asked_nonce, asked_signature, posted,
}
use hypersdk_go.Exchange.Submission.Once.{SubmitsOnce, submit_l1_for-SubmitsOnce}

-- A client whose signer signs with the digest itself, and whose post answers the nonce.
abbrev sample_client : Client String ℕ
sample_client = record {
  signer = some (record {
    address = 7 ∷ [];
    sign_digest = λ digest. ok (record { r = digest; s = 1 ∷ []; v = 1 });
  });
  next_nonce = some (λ address. ok 41);
  digest = λ action nonce vault expires is_mainnet. ok (nonce ∷ []);
  verify = λ digest signature address. ok tt;
  post = λ p. ok p.nonce;
  is_mainnet = true;
  vault_address = some (9 ∷ []);
  expires_after = none;
}

submit_l1_for-SubmitsOnce_example :
    SubmitsOnce sample_client "noop" none
      (some 5)
      (outer_vault_address (some (9 ∷ [])) none)
      (submit_l1_for sample_client "noop" none (some 5))
submit_l1_for-SubmitsOnce_example = submit_l1_for-SubmitsOnce sample_client "noop" none (some 5)

-- The run asks for a nonce and a signature, and posts to the configured vault; a signature that
-- does not verify, or with a recovery ID of no meaning, is not posted.
runs : Unit {0}
unfolding submit_l1 submit_l1_for submit_l1_at_nonce submit_l1_at_nonce_with_outer take_nonce
    sign_and_post normalize_recovery_id
runs =
    let answered : submit_l1_for sample_client "noop" none (some 5) ≡ (
      ok 41,
      asked_nonce (7 ∷ [])
          ∷ asked_signature (41 ∷ [])
          ∷ posted (record {
            action = "noop";
            nonce = 41;
            signature = record { r = 41 ∷ []; s = 1 ∷ []; v = 28 };
            vault_address = some (9 ∷ []);
            expires_after = some 5;
          })
          ∷ [],
    ) =
      refl in
    let unverified : submit_l1
          (record sample_client { verify = λ digest signature address. err "mismatch" }) "noop"
        ≡ (err (verify_failed "mismatch"), asked_nonce (7 ∷ []) ∷ asked_signature (41 ∷ []) ∷ []) =
      refl in
    let without_signer : submit_l1 (record sample_client { signer = none }) "noop"
        ≡ (err signer_required, []) =
      refl in
    tt

-- A client for user-signed actions, whose addresses are texts.
abbrev wallet : Client Json ℕ
wallet = record {
  signer = some (record {
    address = 7 ∷ [];
    sign_digest = λ digest. ok (record { r = digest; s = 1 ∷ []; v = 0 });
  });
  next_nonce = none;
  digest = λ action nonce vault expires is_mainnet. err "no L1 action";
  verify = λ digest signature address. ok tt;
  post = λ p. ok p.nonce;
  is_mainnet = true;
  vault_address = some (9 ∷ []);
  expires_after = some 5;
}

abbrev hash_chain : Domain → TypedData → Result String Bytes
hash_chain d t = ok (d.chain_id ∷ [])

abbrev transfer : UserAction String
transfer = usd_send (record { destination = "0xab"; amount = "1.5"; time = 12 })

submit_user_signed-Posts_example :
    Posts wallet
      (Authentic (λ a. a) (λ a. a == "") hash_chain wallet transfer)
      (submit_user_signed (λ a. a) (λ a. a == "") hash_chain wallet transfer)
submit_user_signed-Posts_example =
    submit_user_signed-Posts (λ a. a) (λ a. a == "") hash_chain wallet transfer

-- It is posted with its own nonce, to the configured vault and without the client's expiry.
transferred : submit_user_signed (λ a. a) (λ a. a == "") hash_chain wallet transfer ≡ (
  ok 12,
  asked_signature (421614 ∷ [])
      ∷ posted (record {
        action = object (
            field "type" (text "usdSend") (
              field "hyperliquidChain" (text "Mainnet") (
                field "signatureChainId" (text "0x66eee") (
                  field "destination"
                    (text "0xab")
                    (field "amount" (text "1.5") (field "time" (number (pos 12)) done))))));
        nonce = 12;
        signature = record { r = 421614 ∷ []; s = 1 ∷ []; v = 27 };
        vault_address = some (9 ∷ []);
        expires_after = none;
      })
      ∷ [],
)
unfolding submit_user_signed compute_user_action_digest user_signed_typed_data user_signed_wire
    user_typed_data user_wire_fields validate_user_action action_nonce omit_outer_vault_address
    user_action_network sign_and_post normalize_recovery_id
transferred = refl

user_signed_typed_data-BothCover_example :
    BothCover
      (user_signed_typed_data (λ a. a) (λ a. a == "") transfer true)
      (user_signed_wire (λ a. a) (λ a. a == "") transfer true)
      (action_nonce transfer)
      true
user_signed_typed_data-BothCover_example =
    user_signed_typed_data-BothCover (λ a. a == "") (λ a. a) transfer true
