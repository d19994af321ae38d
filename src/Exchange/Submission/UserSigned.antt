-- ===== src/Exchange/Submission/UserSigned.antt =====
-- exchange/submit.go (submitUserSigned) over the actions of signing/user_action.go, with its
-- ComputeUserActionDigest and MarshalUserSignedAction. The hash of typed data is go-ethereum's, and
-- a parameter.
use hypersdk_go.Json.{Json, Fields, object}
use hypersdk_go.Prelude.{
  ℕ, Bool, Option, none, some, String, [], nat_eq, Result, ok, err, ◌≡◌, refl, inl, inr,
  if◌then◌else◌, Result-cases, Option-cases,
}
use hypersdk_go.Signing.Users.{TypedData}
use hypersdk_go.Signing.Users.Actions.{UserAction, action_nonce, omit_outer_vault_address}
use hypersdk_go.Signing.Users.Typed.{user_signed_typed_data}
use hypersdk_go.Signing.Users.Posted.{user_signed_wire}
use hypersdk_go.Signing.Users.Covers.{Covers, BothCover, user_signed_typed_data-BothCover}
use hypersdk_go.Exchange.Submission.{
  Bytes, Signature, Submission, Signer, Client, Run, sign_and_post, ◌>>=◌, asks, required,
  signer_required, digest_failed, user_action_refused,
}
use hypersdk_go.Exchange.Submission.Once.{Posts, SameRecovery, sign_and_post-Posts}

-- apitypes.TypedDataDomain, and the one of every user-signed action.
pub record Domain : Type 0 where
  pub name : String
  pub version : String
  pub chain_id : ℕ
  pub verifying_contract : String

abbrev pub user_action_domain : Domain
user_action_domain = record {
  name = "HyperliquidSignTransaction";
  version = "1";
  chain_id = 0x66eee;
  verifying_contract = "0x0000000000000000000000000000000000000000";
}

module _ {Address : Type 0} (hex : Address → String) (is_zero : Address → Bool)
    (hash : Domain → TypedData → Result String Bytes) where
  abbrev pub typed_data_digest : Result String TypedData → Result String Bytes
  typed_data_digest (err problem) = err problem
  typed_data_digest (ok data_to_sign) = hash user_action_domain data_to_sign

  -- `ComputeUserActionDigest`
  unfoldable pub compute_user_action_digest : UserAction Address → Bool → Result String Bytes
  compute_user_action_digest a is_mainnet =
      typed_data_digest (user_signed_typed_data hex is_zero a is_mainnet)

  module _ {Response : Type 0} (c : Client Json Response) where
    abbrev pub routed_vault : UserAction Address → Option Bytes
    routed_vault a = if omit_outer_vault_address a then none else c.vault_address

    -- `submitUserSigned`
    unfoldable pub submit_user_signed : UserAction Address → Run Json Response
    submit_user_signed a = do
      s ← required signer_required c.signer
      wire ← asks user_action_refused [] (user_signed_wire hex is_zero a c.is_mainnet)
      digest ← asks digest_failed [] (compute_user_action_digest a c.is_mainnet)
      sign_and_post c s (object wire) (action_nonce a) digest (routed_vault a) none

    -- What is posted for a digest: the wire form of the action that the typed data under the digest
    -- covers, its nonce and no expiry, under a signature that was verified.
    abbrev pub Authentic : UserAction Address → Bytes → Submission Json → Type 0
    Authentic a digest p =
        (t : TypedData) × (wire : Fields) × (user_signed_typed_data hex is_zero a c.is_mainnet
          ≡ ok t)
        × (hash user_action_domain t ≡ ok digest)
        × (p.action ≡ object wire)
        × Covers t wire p.nonce c.is_mainnet
        × (p.vault_address ≡ routed_vault a)
        × (p.expires_after ≡ none)
        × ((s : Signer) × (signature : Signature) × (c.signer ≡ some s)
            × (s.sign_digest digest ≡ ok signature)
            × (c.verify digest signature s.address ≡ ok tt)
            × (p.signature.r ≡ signature.r)
            × (p.signature.s ≡ signature.s)
            × SameRecovery signature.v p.signature.v)

    hash-Posts :
        (a : UserAction Address) (s : Signer) (t : TypedData) (wire : Fields)
        → c.signer ≡ some s
        → user_signed_typed_data hex is_zero a c.is_mainnet ≡ ok t
        → Covers t wire (action_nonce a) c.is_mainnet
        → Posts c (Authentic a) (
            asks digest_failed [] (hash user_action_domain t) >>= λ digest.
            sign_and_post c s (object wire) (action_nonce a) digest (routed_vault a) none)
    hash-Posts a s t wire hs ht covers = elim (Result-cases (hash user_action_domain t)) [
      | inr (x, hashing) ↦ rw hashing tt
      | inl (digest, hashing) ↦ rw hashing (
          sign_and_post-Posts c (Authentic a) s (object wire) (action_nonce a) digest
            (routed_vault a) none
            (λ signature v signing verifying id. (
              t,
              wire,
              ht,
              hashing,
              refl,
              covers,
              refl,
              refl,
              (s, signature, hs, signing, verifying, refl, refl, id),
            )))
    ]

    pub submit_user_signed-Posts :
        (a : UserAction Address) → Posts c (Authentic a) (submit_user_signed a)
    unfolding submit_user_signed compute_user_action_digest
    submit_user_signed-Posts a = elim (Option-cases c.signer) [
      | inl missing ↦ simp missing tt
      | inr (s, hs) ↦ simp hs (
          go s hs (user_signed_typed_data hex is_zero a c.is_mainnet)
            (user_signed_wire hex is_zero a c.is_mainnet) refl
            (user_signed_typed_data-BothCover is_zero hex a c.is_mainnet))
    ]
      where
        go :
            (s : Signer) (hs : c.signer ≡ some s) (t : Result String TypedData)
            (wire : Result String Fields)
            → user_signed_typed_data hex is_zero a c.is_mainnet ≡ t
            → BothCover t wire (action_nonce a) c.is_mainnet
            → Posts c (Authentic a) (
                asks user_action_refused [] wire >>= λ w.
                asks digest_failed [] (typed_data_digest t) >>= λ digest.
                sign_and_post c s (object w) (action_nonce a) digest (routed_vault a) none)
        go s hs (err x) (err y) e b = tt
        go s hs (ok t) (ok w) e b = hash-Posts a s t w hs e b
        go s hs (err x) (ok w) e b = absurd b
        go s hs (ok t) (err y) e b = absurd b
