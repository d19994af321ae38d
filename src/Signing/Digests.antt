-- ===== src/Signing/Digests.antt =====
-- What is signed against what is posted, for the L1 actions of signing/l1_contract.go: reading the
-- signed calls, and what the bytes under the digest of signing/l1_action.go commit to.
use hypersdk_go.Json.{Json}
use hypersdk_go.Prelude.{
  ℕ, ◌+◌, Bool, Option, some, String, List, ◌++◌, Result, ok, err, ◌≡◌, refl, sym, ap, subst, ◌∙◌,
  All, arith,
}
use hypersdk_go.Signing.Encoder.{Call}
use hypersdk_go.Signing.Reader.{Item, items, item_of, read, levels, read-print}
use hypersdk_go.Signing.Agreement.{Agrees}
use hypersdk_go.Signing.Validated.{BothAgree}
use hypersdk_go.Signing.Actions.{L1Action, ActionError, marshal_msgpack, marshal_json}
use hypersdk_go.Signing.Forms.{marshal_msgpack-BothAgree}
use hypersdk_go.Signing.Preimage.{IsU64, IsAddress, l1_data, written, Fits}
use hypersdk_go.Signing.Commit.{IfThere, l1_data-split}
use hypersdk_go.Signing.Deploy.Checks.{DecimalLibrary}

ok_inj : {A : Type 0} {a b : A} → ◌≡◌ {A = Result ActionError A} (ok a) (ok b) → a ≡ b
ok_inj h = cc

-- The posted value of an action that is encoded.
posted :
    {cs : List Call} (signed : Result ActionError (List Call)) (json : Result ActionError Json)
    → BothAgree signed json
    → signed ≡ ok cs
    → (j : Json) × (json ≡ ok j) × (Agrees cs j)
posted (err x) (err y) both h = cc
posted (ok ds) (ok j) both h = (j, refl, subst (λ c. Agrees c j) (ok_inj h) both)
posted (err x) (ok j) both h = absurd both
posted (ok cs) (err y) both h = absurd both

module _ (is_hex_address positive_rat parses_ip : String → Bool) (library : DecimalLibrary) where
  -- An L1 action, but those of validators, that is encoded is posted too, and reading the encoder's
  -- calls, whatever follows them, gives the posted value and leaves what follows; the value's
  -- levels are fuel enough.
  pub read-marshal_msgpack :
      (a : L1Action) (cs : List Call) (extra : ℕ) (rest : List Item)
      → marshal_msgpack is_hex_address positive_rat parses_ip library a ≡ ok cs
      → (j : Json) × (marshal_json is_hex_address positive_rat parses_ip library a ≡ ok j)
        × (read (levels j + extra) (items cs ++ rest) ≡ some (j, rest))
  read-marshal_msgpack a cs extra rest h =
      let (j, json, agrees) =
        posted _ _ (marshal_msgpack-BothAgree is_hex_address positive_rat parses_ip library a) h in
      (j, json, rw agrees (read-print j (levels j + extra) rest (omega arith)))

  -- Two L1 actions, those of validators apart, whose calls MessagePack can write, with the nonce,
  -- vault address and expiry that go with each, have the same bytes under the digest only if they
  -- are posted as the same value, with the same nonce, vault address and expiry. MessagePack writes
  -- each item so that no other begins with it.
  pub l1_data-commits :
      (write : Call → List ℕ) (a b : L1Action) (cs ds : List Call) (m n : ℕ) (v w : Option (List ℕ))
      (e f : Option ℕ)
      → ((c d : Call) (xs ys : List ℕ)
          → Fits c
          → Fits d
          → write c ++ xs ≡ write d ++ ys
          → (item_of c ≡ item_of d) × (xs ≡ ys))
      → marshal_msgpack is_hex_address positive_rat parses_ip library a ≡ ok cs
      → marshal_msgpack is_hex_address positive_rat parses_ip library b ≡ ok ds
      → All Fits cs
      → All Fits ds
      → (IsU64 m) × (IfThere IsAddress v) × (IfThere IsU64 e)
      → (IsU64 n) × (IfThere IsAddress w) × (IfThere IsU64 f)
      → l1_data (written write cs) m v e ≡ l1_data (written write ds) n w f
      → (marshal_json is_hex_address positive_rat parses_ip library a
          ≡ marshal_json is_hex_address positive_rat parses_ip library b)
        × (m ≡ n)
        × (v ≡ w)
        × (e ≡ f)
  l1_data-commits write a b cs ds m n v w e f prefix_free ha hb hc hd left right h =
      let (j, json_a, agrees_a) =
        posted _ _ (marshal_msgpack-BothAgree is_hex_address positive_rat parses_ip library a) ha in
      let (k, json_b, agrees_b) =
        posted _ _ (marshal_msgpack-BothAgree is_hex_address positive_rat parses_ip library b) hb in
      let (value, nonce, vault, expiry) =
        l1_data-split write prefix_free cs ds j k m n v w e f hc hd agrees_a agrees_b left right
          h in
      (json_a ∙ ap ok value ∙ sym json_b, nonce, vault, expiry)
