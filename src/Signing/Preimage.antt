-- ===== src/Signing/Preimage.antt =====
-- The bytes under an L1 digest, and the typed data that is signed (signing/l1_action.go,
-- L1ActionComponents and ComputeL1ActionDigest). The MessagePack writer, Keccak-256 and
-- go-ethereum's hash of typed data are parameters. A common.Address is its 20 bytes.
use hypersdk_go.Prelude.{
  ℕ, ◌-◌, ◌*◌, ◌/◌, ◌%◌, ◌^◌, ◌<◌, Bool, Option, none, some, String, List, [], ◌∷◌, ◌++◌, length,
  if◌then◌else◌, ◌≡◌, Result, ◌>>=◌,
}
use hypersdk_go.Prelude.Int.{pos, negsuc, ◌≤ℤ◌}
use hypersdk_go.Prelude.Texts.{codes}
use hypersdk_go.Signing.Encoder.{
  Call, encode_map_len, encode_array_len, encode_string, encode_int, encode_uint, encode_bool,
  encode_nil,
}

abbrev pub IsU64 : ℕ → Type 0
IsU64 n = n < 2 ^ 64

abbrev pub IsAddress : List ℕ → Type 0
IsAddress bytes = length bytes ≡ 20

-- `binary.BigEndian.PutUint64`
unfoldable pub put_uint64 : ℕ → List ℕ
put_uint64 n =
    n / 2 ^ 56 % 256
    ∷ n / 2 ^ 48 % 256
    ∷ n / 2 ^ 40 % 256
    ∷ n / 2 ^ 32 % 256
    ∷ n / 2 ^ 24 % 256
    ∷ n / 2 ^ 16 % 256
    ∷ n / 2 ^ 8 % 256
    ∷ n % 256
    ∷ []

abbrev pub vault_bytes : Option (List ℕ) → List ℕ
vault_bytes none = 0 ∷ []
vault_bytes (some address) = 1 ∷ address

abbrev pub expiry_bytes : Option ℕ → List ℕ
expiry_bytes none = []
expiry_bytes (some expires_after) = 0 ∷ put_uint64 expires_after

-- `data` in L1ActionComponents
unfoldable pub l1_data : List ℕ → ℕ → Option (List ℕ) → Option ℕ → List ℕ
l1_data action_bytes nonce vault_address expires_after =
    action_bytes ++ (put_uint64 nonce ++ (vault_bytes vault_address ++ expiry_bytes expires_after))

-- What the library writes: the bytes of each call, in order.
abbrev pub written : (Call → List ℕ) → List Call → List ℕ
written write [] = []
written write (c ∷ cs) = write c ++ written write cs

-- The calls whose lengths and numbers MessagePack can write; a text has at most four bytes a
-- character.
abbrev pub Fits : Call → Type 0
Fits (encode_map_len n) = n < 2 ^ 32
Fits (encode_array_len n) = n < 2 ^ 32
Fits (encode_string s) = 4 * length (codes s) < 2 ^ 32
Fits (encode_int z) = (negsuc (2 ^ 63 - 1) ≤ℤ z) × (z ≤ℤ pos (2 ^ 63 - 1))
Fits (encode_uint n) = IsU64 n
Fits (encode_bool b) = Unit
Fits encode_nil = Unit

-- The two fields of the Agent that is signed.
pub record Agent : Type 0 where
  pub source : String
  pub connection_id : List ℕ

-- The source names the network.
abbrev pub source_of : Bool → String
source_of is_mainnet = if is_mainnet then "a" else "b"

module _ {Error Digest : Type 0} (keccak : List ℕ → List ℕ)
    (hash_typed_data : Agent → Result Error Digest) where
  -- ComputeL1ActionDigest of an action that is encoded.
  unfoldable pub l1_action_digest :
      Result Error (List ℕ) → ℕ → Option (List ℕ) → Option ℕ → Bool → Result Error Digest
  l1_action_digest action nonce vault_address expires_after is_mainnet = action >>= λ action_bytes.
      hash_typed_data (record {
        source = source_of is_mainnet;
        connection_id = keccak (l1_data action_bytes nonce vault_address expires_after);
      })
