-- ===== src/Exchange/Submission/Once.antt =====
-- A submission of exchange/submit.go posts at most once, and posts what it signed.
use hypersdk_go.Prelude.{
  ℕ, ◌+◌, false, Option, none, some, String, List, [], ◌∷◌, nat_eq, ◌==◌, Result, ok, err, ◌≡◌,
  refl, ◌⊎◌, inl, inr, Result-cases, Option-cases, Bool-cases, arith,
}
use hypersdk_go.Exchange.Submission.{
  Bytes, Signature, Submission, SubmitError, Effect, Signer, Client, Run, normalize_recovery_id,
  outer_vault_address, ◌>>=◌, payload_of, sign_and_post, submit_l1_at_nonce_with_outer,
  submit_l1_at_nonce, take_nonce, submit_l1_for, submit_l1_without_vault, nonce_failed, post_failed,
  asked_nonce, asked_signature, posted,
}

-- The posted V of a signature: 27 or 28, and the V of the signer or 27 above it.
abbrev pub SameRecovery : ℕ → ℕ → Type 0
SameRecovery signed sent = ((sent ≡ signed) ⊎ (sent ≡ signed + 27)) × ((sent ≡ 27) ⊎ (sent ≡ 28))

module _ {Action Response : Type 0} (c : Client Action Response) where
  -- A post is of the action, its nonce and fields, under a signature of the digest of just these
  -- that was verified for the signer's address.
  abbrev pub Justified :
      Action → ℕ → Option Bytes → Option ℕ → Option Bytes → Bytes → Submission Action → Type 0
  Justified action nonce vault expires outer digest p =
      (p.action ≡ action)
      × (p.nonce ≡ nonce)
      × (p.vault_address ≡ outer)
      × (p.expires_after ≡ expires)
      × ((nonce == 0) ≡ false)
      × (c.digest action nonce vault expires c.is_mainnet ≡ ok digest)
      × ((s : Signer) × (c.signer ≡ some s)
          × ((signature : Signature) × (s.sign_digest digest ≡ ok signature)
              × (c.verify digest signature s.address ≡ ok tt)
              × (p.signature.r ≡ signature.r)
              × (p.signature.s ≡ signature.s)
              × SameRecovery signature.v p.signature.v))

  -- A run that stops before the signature, or after it, or posts once what is justified for the
  -- digest that was signed, and answers what the post answers.
  abbrev pub Posts : (Bytes → Submission Action → Type 0) → Run Action Response → Type 0
  Posts J (err problem, []) = Unit
  Posts J (err problem, asked_signature digest ∷ []) = Unit
  Posts J (result, asked_signature digest ∷ posted p ∷ []) =
      J digest p
      × (((response : Response) × (c.post p ≡ ok response) × (result ≡ ok response))
          ⊎ ((e : String) × (c.post p ≡ err e) × (result ≡ err (post_failed e))))
  Posts J _ = ⊥

  -- The runs of a submission after its nonce.
  abbrev pub PostsOnce :
      Action → ℕ → Option Bytes → Option ℕ → Option Bytes → Run Action Response → Type 0
  PostsOnce action nonce vault expires outer = Posts (Justified action nonce vault expires outer)

  normalized_id : (v w : ℕ) → normalize_recovery_id v ≡ ok w → SameRecovery v (w + 27)
  unfolding normalize_recovery_id
  normalized_id v w h = ground arith

  -- What is posted is the payload of a signature of the digest that was verified.
  pub sign_and_post-Posts :
      (J : Bytes → Submission Action → Type 0) (s : Signer) (action : Action) (nonce : ℕ)
      (digest : Bytes) (outer : Option Bytes) (expires : Option ℕ)
      → ((signature : Signature) (v : ℕ)
          → s.sign_digest digest ≡ ok signature
          → c.verify digest signature s.address ≡ ok tt
          → SameRecovery signature.v (v + 27)
          → J digest (payload_of c action nonce signature v outer expires))
      → Posts J (sign_and_post c s action nonce digest outer expires)
  unfolding sign_and_post
  sign_and_post-Posts J s action nonce digest outer expires just =
      elim (Result-cases (s.sign_digest digest)) [
        | inr (x, signing) ↦ rw signing tt
        | inl (signature, signing) ↦
            rw signing (elim (Result-cases (c.verify digest signature s.address)) [
              | inr (x, verifying) ↦ rw verifying tt
              | inl (_, verifying) ↦
                  rw verifying (elim (Result-cases (normalize_recovery_id signature.v)) [
                    | inr (x, recovering) ↦ rw recovering tt
                    | inl (v, recovering) ↦ rw recovering (
                        let justified =
                          just signature v signing verifying
                            (normalized_id signature.v v recovering) in
                        elim (Result-cases
                          (c.post (payload_of c action nonce signature v outer expires))) [
                            | inl (response, posting) ↦
                                rw posting (justified, inl (response, posting, refl))
                            | inr (e, posting) ↦ rw posting (justified, inr (e, posting, refl))
                          ])
                  ])
            ])
      ]

  sign_and_post-PostsOnce :
      (s : Signer) (action : Action) (nonce : ℕ) (digest : Bytes) (vault outer : Option Bytes)
      (expires : Option ℕ)
      → c.signer ≡ some s
      → (nonce == 0) ≡ false
      → c.digest action nonce vault expires c.is_mainnet ≡ ok digest
      → PostsOnce action nonce vault expires outer
          (sign_and_post c s action nonce digest outer expires)
  sign_and_post-PostsOnce s action nonce digest vault outer expires hs hn hd =
      sign_and_post-Posts (Justified action nonce vault expires outer) s action nonce digest outer
        expires
        (λ signature v signing verifying id. (
          refl,
          refl,
          refl,
          refl,
          hn,
          hd,
          (s, hs, (signature, signing, verifying, refl, refl, id)),
        ))

  submit_l1_at_nonce_with_outer-PostsOnce :
      (action : Action) (nonce : ℕ) (vault outer : Option Bytes) (expires : Option ℕ)
      → PostsOnce action nonce vault expires outer
          (submit_l1_at_nonce_with_outer c action nonce vault expires outer)
  unfolding submit_l1_at_nonce_with_outer
  submit_l1_at_nonce_with_outer-PostsOnce action nonce vault outer expires =
      elim (Option-cases c.signer) [
        | inl missing ↦ simp missing tt
        | inr (s, hs) ↦ simp hs (elim (Bool-cases (nonce == 0)) [
          | inl zero_nonce ↦ rw zero_nonce tt
          | inr hn ↦ rw hn (elim (Result-cases (c.digest action nonce vault expires c.is_mainnet)) [
            | inr (x, digesting) ↦ rw digesting tt
            | inl (digest, hd) ↦
                rw hd (sign_and_post-PostsOnce s action nonce digest vault outer expires hs hn hd)
          ])
        ])
      ]

  -- With a nonce of its own: nothing is asked without a signer and a nonce manager; else the
  -- manager is asked once, for the signer's address, and what it answers is the nonce of the rest.
  abbrev Asked :
      Action
      → Option Bytes
      → Option ℕ
      → Option Bytes
      → List (Effect Action)
      → Result SubmitError Response
      → Type 0
  Asked action vault expires outer [] (err problem) = Unit
  Asked action vault expires outer [] (ok response) = ⊥
  Asked action vault expires outer (asked_nonce address ∷ effects) result =
      (s : Signer) × (next : Bytes → Result String ℕ) × (c.signer ≡ some s)
      × (c.next_nonce ≡ some next)
      × (address ≡ s.address)
      × (((e : String) × (next address ≡ err e) × (result ≡ err (nonce_failed e)) × (effects ≡ []))
          ⊎ ((nonce : ℕ) × (next address ≡ ok nonce)
              × (PostsOnce action nonce vault expires outer (result, effects))))
  Asked action vault expires outer (_ ∷ _) result = ⊥

  abbrev pub SubmitsOnce :
      Action → Option Bytes → Option ℕ → Option Bytes → Run Action Response → Type 0
  SubmitsOnce action vault expires outer (result, effects) =
      Asked action vault expires outer effects result

  -- Whatever is done with a nonce posts once with it.
  with_nonce :
      (action : Action) (vault outer : Option Bytes) (expires : Option ℕ)
      (rest : ℕ → Run Action Response)
      → ((nonce : ℕ) → PostsOnce action nonce vault expires outer (rest nonce))
      → SubmitsOnce action vault expires outer (take_nonce c >>= rest)
  unfolding take_nonce
  with_nonce action vault outer expires rest h = elim (Option-cases c.signer) [
    | inl missing ↦ simp missing tt
    | inr (s, hs) ↦ simp hs (elim (Option-cases c.next_nonce) [
      | inl missing ↦ simp missing tt
      | inr (next, hm) ↦ simp hm (elim (Result-cases (next s.address)) [
        | inr (e, failed) ↦ rw failed (s, next, hs, hm, refl, inl (e, failed, refl, refl))
        | inl (nonce, taken) ↦ rw taken (s, next, hs, hm, refl, inr (nonce, taken, h nonce))
      ])
    ])
  ]

  -- A submission of an L1 action asks for at most one nonce and one signature and posts at most
  -- once. What it posts has the nonce that was taken, the routing vault and the expiry, and the
  -- R, S and V of a signature that was verified for the digest of the same action, nonce, signing
  -- vault and expiry, where V is moved from 0 and 1 to 27 and 28 and no other V is posted; after a post, the answer is the post's own, also where it failed.
  pub submit_l1_for-SubmitsOnce :
      (action : Action) (vault : Option Bytes) (expires : Option ℕ)
      → SubmitsOnce action vault expires
          (outer_vault_address c.vault_address vault)
          (submit_l1_for c action vault expires)
  unfolding submit_l1_for submit_l1_at_nonce
  submit_l1_for-SubmitsOnce action vault expires =
      with_nonce action vault (outer_vault_address c.vault_address vault) expires _
        (λ nonce. submit_l1_at_nonce_with_outer-PostsOnce action nonce vault _ expires)

  pub submit_l1_without_vault-SubmitsOnce :
      (action : Action) (expires : Option ℕ)
      → SubmitsOnce action none expires none (submit_l1_without_vault c action expires)
  unfolding submit_l1_without_vault
  submit_l1_without_vault-SubmitsOnce action expires =
      with_nonce action none none expires _
        (λ nonce. submit_l1_at_nonce_with_outer-PostsOnce action nonce none none expires)
