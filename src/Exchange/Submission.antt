-- ===== src/Exchange/Submission.antt =====
-- exchange/submit.go and signer/signer.go (NormalizeRecoveryID): how a signed action is submitted.
-- The signer, its verification, the nonce manager, the digest and the post are the client's
-- services; a run of a submission is its answer and what it asked of them, in order. Addresses,
-- digests and the words of a signature are their bytes.
pub mod Once
pub mod UserSigned
mod Examples
use hypersdk_go.Prelude.{
  ℕ, ◌+◌, ◌-◌, Bool, true, false, not, Option, none, some, String, List, [], ◌∷◌, ◌++◌, nat_eq,
  ◌==◌, ◌||◌, if◌then◌else◌, Result, ok, err,
}

abbrev pub Bytes : Type 0
Bytes = List ℕ

-- `signer.Signature`, and `wireSignature` with its V.
pub record Signature : Type 0 where
  pub r : Bytes
  pub s : Bytes
  pub v : ℕ

-- What is posted.
pub record Submission (Action : Type 0) : Type 0 where
  pub action : Action
  pub nonce : ℕ
  pub signature : Signature
  pub vault_address : Option Bytes
  pub expires_after : Option ℕ

pub data SubmitError : Type 0 where
  signer_required nonce_manager_required nonce_not_positive : SubmitError
  invalid_recovery_id : ℕ → SubmitError
  user_action_refused : String → SubmitError
  nonce_failed digest_failed sign_failed verify_failed post_failed : String → SubmitError

pub data Effect (Action : Type 0) : Type 0 where
  asked_nonce : Bytes → Effect Action
  asked_signature : Bytes → Effect Action
  posted : Submission Action → Effect Action

pub record Signer : Type 0 where
  pub address : Bytes
  pub sign_digest : Bytes → Result String Signature

-- The client, with its services and the configured vault address and expiry.
pub record Client (Action Response : Type 0) : Type 0 where
  pub signer : Option Signer
  pub next_nonce : Option (Bytes → Result String ℕ)
  pub digest : Action → ℕ → Option Bytes → Option ℕ → Bool → Result String Bytes
  pub verify : Bytes → Signature → Bytes → Result String (Unit {0})
  pub post : Submission Action → Result String Response
  pub is_mainnet : Bool
  pub vault_address : Option Bytes
  pub expires_after : Option ℕ

abbrev pub Run : Type 0 → Type 0 → Type 0
Run Action A = Result SubmitError A × List (Effect Action)

-- `NormalizeRecoveryID`
unfoldable pub normalize_recovery_id : ℕ → Result SubmitError ℕ
normalize_recovery_id v =
    if v == 0 || v == 1
    then ok v
    else if v == 27 || v == 28
    then ok (v - 27)
    else err (invalid_recovery_id v)

-- `outerVaultAddress`: the signing vault where there is one, or the configured vault.
abbrev pub outer_vault_address : Option Bytes → Option Bytes → Option Bytes
outer_vault_address configured (some vault) = some vault
outer_vault_address configured none = configured

module _ {Action : Type 0} where
  -- A failed step ends the run; what was asked before stays asked.
  infixl 5 ◌>>=◌
  abbrev pub ◌>>=◌ : {A B : Type 0} → Run Action A → (A → Run Action B) → Run Action B
  (err problem, effects) >>= next = (err problem, effects)
  (ok a, effects) >>= next = ((next a).0, effects ++ (next a).1)

  abbrev pub asks :
      {A : Type 0} → (String → SubmitError) → List (Effect Action) → Result String A → Run Action A
  asks wrap effects (err problem) = (err (wrap problem), effects)
  asks wrap effects (ok a) = (ok a, effects)

  abbrev pub required : {A : Type 0} → SubmitError → Option A → Run Action A
  required problem none = (err problem, [])
  required problem (some a) = (ok a, [])

  abbrev pub ensure : Bool → SubmitError → Run Action (Unit {0})
  ensure passes problem = if passes then (ok tt, []) else (err problem, [])

module _ {Action Response : Type 0} (c : Client Action Response) where
  abbrev pub payload_of : Action → ℕ → Signature → ℕ → Option Bytes → Option ℕ → Submission Action
  payload_of action nonce signature v vault expires = record {
    action = action;
    nonce = nonce;
    signature = record { r = signature.r; s = signature.s; v = v + 27 };
    vault_address = vault;
    expires_after = expires;
  }

  -- From the digest on: sign, verify, and post.
  unfoldable pub sign_and_post :
      Signer → Action → ℕ → Bytes → Option Bytes → Option ℕ → Run Action Response
  sign_and_post s action nonce digest outer expires = do
    signature ← asks sign_failed (asked_signature digest ∷ []) (s.sign_digest digest)
    _ ← asks verify_failed [] (c.verify digest signature s.address)
    v ← (normalize_recovery_id signature.v, [])
    asks post_failed (posted (payload_of action nonce signature v outer expires) ∷ [])
        (c.post (payload_of action nonce signature v outer expires))

  -- `submitL1AtNonceWithOuter`
  unfoldable pub submit_l1_at_nonce_with_outer :
      Action → ℕ → Option Bytes → Option ℕ → Option Bytes → Run Action Response
  submit_l1_at_nonce_with_outer action nonce vault expires outer = do
    s ← required signer_required c.signer
    _ ← ensure (not (nonce == 0)) nonce_not_positive
    digest ← asks digest_failed [] (c.digest action nonce vault expires c.is_mainnet)
    sign_and_post s action nonce digest outer expires

  -- `submitL1AtNonce`
  unfoldable pub submit_l1_at_nonce : Action → ℕ → Option Bytes → Option ℕ → Run Action Response
  submit_l1_at_nonce action nonce vault expires =
      submit_l1_at_nonce_with_outer action nonce vault expires
        (outer_vault_address c.vault_address vault)

  -- The nonce of the signer's address, for `submitL1For` and `submitL1WithoutVault`.
  unfoldable pub take_nonce : Run Action ℕ
  take_nonce = do
    s ← required signer_required c.signer
    next ← required nonce_manager_required c.next_nonce
    asks nonce_failed (asked_nonce s.address ∷ []) (next s.address)

  -- `submitL1For`
  unfoldable pub submit_l1_for : Action → Option Bytes → Option ℕ → Run Action Response
  submit_l1_for action vault expires = do
    nonce ← take_nonce
    submit_l1_at_nonce action nonce vault expires

  -- `submitL1`
  unfoldable pub submit_l1 : Action → Run Action Response
  submit_l1 action = submit_l1_for action c.vault_address c.expires_after

  -- `submitL1WithoutVault`
  unfoldable pub submit_l1_without_vault : Action → Option ℕ → Run Action Response
  submit_l1_without_vault action expires = do
    nonce ← take_nonce
    submit_l1_at_nonce_with_outer action nonce none expires none
