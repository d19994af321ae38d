-- ===== src/Signing/Users/Covers.antt =====
-- What a user-signed action signs is what it posts.
use hypersdk_go.Json.{Json, Fields, boolean, number, text, done, field, get_field}
use hypersdk_go.Prelude.Int.{pos}
use hypersdk_go.Prelude.{
  ℕ, Bool, true, false, not, ◌&&◌, ◌||◌, Option, none, some, String, string_eq, ◌==◌, List, [], ◌∷◌,
  length, Result, ok, err, ◌>>=◌, ◌≡◌, refl, ◌⊎◌, inl, inr, All,
}
use hypersdk_go.Signing.Reader.{count_fields}
use hypersdk_go.Signing.Users.{TypedData, user_action_network, name_text}
use hypersdk_go.Signing.Users.Actions.{
  UserAction, action_nonce, validate_user_action, usd_send, spot_send, withdraw, usd_class_transfer,
  send_asset, approve_builder_fee, send_to_evm, c_deposit, c_withdraw, token_delegate,
  user_dex_abstraction, user_set_abstraction, approve_agent,
}
use hypersdk_go.Signing.Users.Typed.{user_typed_data, user_signed_typed_data}
use hypersdk_go.Signing.Users.Posted.{agent_name_fields, user_wire_fields, user_signed_wire}
use hypersdk_go.Signing.Deploy.Checks.{Check}

-- The values that the hash of typed data takes for a type.
abbrev pub has_type : String → Json → Bool
has_type type (text s) = type == "string" || type == "address" || type == "bytes"
has_type type (number (pos n)) = type == "uint64" || type == "uint32"
has_type type (boolean b) = type == "bool"
has_type type _ = false

abbrev pub distinct : List (String × String) → Bool
distinct [] = true
distinct ((name, type) ∷ names) = unused name names && distinct names
  where
    unused : String → List (String × String) → Bool
    unused name [] = true
    unused name ((other, type) ∷ names) = not (name == other) && unused name names

-- A declared field has a value of its type in the message, and it is posted under its name; the
-- empty text may stand for a field that is not posted.
abbrev pub IsPosted : Fields → Fields → String × String → Type 0
IsPosted message wire (name, type) =
    (v : Json) × (get_field name message ≡ some v)
    × (has_type type v ≡ true)
    × ((get_field name wire ≡ some v) ⊎ ((get_field name wire ≡ none) × (v ≡ text "")))

-- Typed data that the hash accepts, all of which is posted, with the chain it is for and its nonce.
abbrev pub Covers : TypedData → Fields → ℕ → Bool → Type 0
Covers t wire nonce is_mainnet =
    (distinct t.fields ≡ true)
    × (count_fields t.message ≡ length t.fields)
    × (get_field "hyperliquidChain" t.message ≡ some (text (user_action_network is_mainnet)))
    × (get_field "signatureChainId" wire ≡ some (text "0x66eee"))
    × ((get_field "nonce" wire ≡ some (number (pos nonce)))
        ⊎ (get_field "time" wire ≡ some (number (pos nonce))))
    × (All (IsPosted t.message wire) t.fields)

abbrev pub BothCover : Result String TypedData → Result String Fields → ℕ → Bool → Type 0
BothCover (err x) (err y) nonce is_mainnet = x ≡ y
BothCover (ok t) (ok wire) nonce is_mainnet = Covers t wire nonce is_mainnet
BothCover _ _ nonce is_mainnet = ⊥

check-BothCover :
    (check : Check) (t : TypedData) (wire : Fields) (nonce : ℕ) (is_mainnet : Bool)
    → Covers t wire nonce is_mainnet
    → BothCover (check >>= λ _. ok t) (check >>= λ _. ok wire) nonce is_mainnet
check-BothCover (err x) t wire nonce is_mainnet h = refl
check-BothCover (ok tt) t wire nonce is_mainnet h = h

nonce_after_name :
    (o : Option String) (rest : Fields)
    → get_field "nonce" (agent_name_fields o rest) ≡ get_field "nonce" rest
unfolding get_field
nonce_after_name none rest = refl
nonce_after_name (some name) rest = refl

name_posted :
    (o : Option String) (nonce : ℕ)
    → let wire = agent_name_fields o (field "nonce" (number (pos nonce)) done) in
      (get_field "agentName" wire ≡ some (text (name_text o)))
      ⊎ ((get_field "agentName" wire ≡ none) × (text (name_text o) ≡ text ""))
unfolding get_field
name_posted none nonce = inr (refl, refl)
name_posted (some name) nonce = inl refl

module _ {Address : Type 0} (is_zero : Address → Bool) (hex : Address → String) where
  user_typed_data-Covers :
      (a : UserAction Address) (is_mainnet : Bool)
      → Covers
          (user_typed_data hex a is_mainnet)
          (user_wire_fields hex a is_mainnet)
          (action_nonce a)
          is_mainnet
  unfolding user_typed_data user_wire_fields action_nonce get_field user_action_network
  user_typed_data-Covers (usd_send a) is_mainnet = (
    refl,
    refl,
    refl,
    refl,
    inr refl,
    (
      (_, refl, refl, inl refl),
      ((_, refl, refl, inl refl), ((_, refl, refl, inl refl), ((_, refl, refl, inl refl), tt))),
    ),
  )
  user_typed_data-Covers (spot_send a) is_mainnet = (
    refl,
    refl,
    refl,
    refl,
    inr refl,
    (
      (_, refl, refl, inl refl),
      (
        (_, refl, refl, inl refl),
        ((_, refl, refl, inl refl), ((_, refl, refl, inl refl), ((_, refl, refl, inl refl), tt))),
      ),
    ),
  )
  user_typed_data-Covers (withdraw a) is_mainnet = (
    refl,
    refl,
    refl,
    refl,
    inr refl,
    (
      (_, refl, refl, inl refl),
      ((_, refl, refl, inl refl), ((_, refl, refl, inl refl), ((_, refl, refl, inl refl), tt))),
    ),
  )
  user_typed_data-Covers (usd_class_transfer a) is_mainnet = (
    refl,
    refl,
    refl,
    refl,
    inl refl,
    (
      (_, refl, refl, inl refl),
      ((_, refl, refl, inl refl), ((_, refl, refl, inl refl), ((_, refl, refl, inl refl), tt))),
    ),
  )
  user_typed_data-Covers (send_asset a) is_mainnet = (
    refl,
    refl,
    refl,
    refl,
    inl refl,
    (
      (_, refl, refl, inl refl),
      (
        (_, refl, refl, inl refl),
        (
          (_, refl, refl, inl refl),
          (
            (_, refl, refl, inl refl),
            (
              (_, refl, refl, inl refl),
              (
                (_, refl, refl, inl refl),
                ((_, refl, refl, inl refl), ((_, refl, refl, inl refl), tt)),
              ),
            ),
          ),
        ),
      ),
    ),
  )
  user_typed_data-Covers (approve_builder_fee a) is_mainnet = (
    refl,
    refl,
    refl,
    refl,
    inl refl,
    (
      (_, refl, refl, inl refl),
      ((_, refl, refl, inl refl), ((_, refl, refl, inl refl), ((_, refl, refl, inl refl), tt))),
    ),
  )
  user_typed_data-Covers (send_to_evm a) is_mainnet = (
    refl,
    refl,
    refl,
    refl,
    inl refl,
    (
      (_, refl, refl, inl refl),
      (
        (_, refl, refl, inl refl),
        (
          (_, refl, refl, inl refl),
          (
            (_, refl, refl, inl refl),
            (
              (_, refl, refl, inl refl),
              (
                (_, refl, refl, inl refl),
                (
                  (_, refl, refl, inl refl),
                  (
                    (_, refl, refl, inl refl),
                    ((_, refl, refl, inl refl), ((_, refl, refl, inl refl), tt)),
                  ),
                ),
              ),
            ),
          ),
        ),
      ),
    ),
  )
  user_typed_data-Covers (c_deposit a) is_mainnet = (
    refl,
    refl,
    refl,
    refl,
    inl refl,
    ((_, refl, refl, inl refl), ((_, refl, refl, inl refl), ((_, refl, refl, inl refl), tt))),
  )
  user_typed_data-Covers (c_withdraw a) is_mainnet = (
    refl,
    refl,
    refl,
    refl,
    inl refl,
    ((_, refl, refl, inl refl), ((_, refl, refl, inl refl), ((_, refl, refl, inl refl), tt))),
  )
  user_typed_data-Covers (token_delegate a) is_mainnet = (
    refl,
    refl,
    refl,
    refl,
    inl refl,
    (
      (_, refl, refl, inl refl),
      (
        (_, refl, refl, inl refl),
        ((_, refl, refl, inl refl), ((_, refl, refl, inl refl), ((_, refl, refl, inl refl), tt))),
      ),
    ),
  )
  user_typed_data-Covers (user_dex_abstraction a) is_mainnet = (
    refl,
    refl,
    refl,
    refl,
    inl refl,
    (
      (_, refl, refl, inl refl),
      ((_, refl, refl, inl refl), ((_, refl, refl, inl refl), ((_, refl, refl, inl refl), tt))),
    ),
  )
  user_typed_data-Covers (user_set_abstraction a) is_mainnet = (
    refl,
    refl,
    refl,
    refl,
    inl refl,
    (
      (_, refl, refl, inl refl),
      ((_, refl, refl, inl refl), ((_, refl, refl, inl refl), ((_, refl, refl, inl refl), tt))),
    ),
  )
  user_typed_data-Covers (approve_agent a) is_mainnet = (
    refl,
    refl,
    refl,
    refl,
    inl (nonce_after_name a.agent_name _),
    (
      (_, refl, refl, inl refl),
      (
        (_, refl, refl, inl refl),
        (
          (_, refl, refl, name_posted a.agent_name a.nonce),
          ((_, refl, refl, inl (nonce_after_name a.agent_name _)), tt),
        ),
      ),
    ),
  )

  -- A user-signed action is refused in both forms for the same reason; or else its typed data has a
  -- field for each value of its message and no more, each of its declared type, and the wire form
  -- posts each under the same name, or leaves out what is signed as the empty text. The message
  -- names the network, and the wire form has the signature's chain ID and the action's nonce.
  pub user_signed_typed_data-BothCover :
      (a : UserAction Address) (is_mainnet : Bool)
      → BothCover
          (user_signed_typed_data hex is_zero a is_mainnet)
          (user_signed_wire hex is_zero a is_mainnet)
          (action_nonce a)
          is_mainnet
  unfolding user_signed_typed_data user_signed_wire
  user_signed_typed_data-BothCover a is_mainnet =
      check-BothCover (validate_user_action is_zero a) _ _ (action_nonce a) is_mainnet
        (user_typed_data-Covers a is_mainnet)
