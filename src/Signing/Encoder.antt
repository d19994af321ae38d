-- ===== src/Signing/Encoder.antt =====
-- The MessagePack encoder as the payloads use it (signing/l1_action.go, marshalMap and the loops
-- over pairs): the calls a MarshalMsgpack makes, in order. The library that turns a call into bytes
-- is a parameter, in Preimage. `UseCompactInts` makes `Encode` of any integer one of EncodeInt and
-- EncodeUint.
use hypersdk_go.Json.{Json, Items, Fields, done, field, null, array, nil, item}
use hypersdk_go.Prelude.Int.{ℤ, pos}
use hypersdk_go.Prelude.{
  ℕ, ◌-◌, ◌+◌, ◌^◌, Bool, Option, none, some, String, List, [], ◌∷◌, ◌++◌, length, leb,
  if◌then◌else◌,
}

pub data Call : Type 0 where
  encode_map_len encode_array_len : ℕ → Call
  encode_string : String → Call
  encode_int : ℤ → Call
  encode_uint : ℕ → Call
  encode_bool : Bool → Call
  encode_nil : Call

-- `for _, pair := range pairs`: the key, then what `Encode` calls for the value.
abbrev pub encode_pairs : List (String × List Call) → List Call
encode_pairs [] = []
encode_pairs ((key, value) ∷ pairs) = encode_string key ∷ (value ++ encode_pairs pairs)

-- `marshalAccountMap` counts its pairs.
abbrev pub marshal_account_map : List (String × List Call) → List Call
marshal_account_map pairs = encode_map_len (length pairs) ∷ encode_pairs pairs

-- Whole seconds and identifiers as Python's packer writes them.
abbrev pub encode_compact_uint : ℕ → Call
encode_compact_uint value =
    if leb value (2 ^ 63 - 1) then encode_int (pos value) else encode_uint value

-- `Encode` of an optional value: nil, or what the pointer points to.
abbrev pub encode_pointer {ℓ} : {A : Type ℓ} → (A → List Call) → Option A → List Call
encode_pointer encode none = encode_nil ∷ []
encode_pointer encode (some a) = encode a

module _ {ℓ} {A : Type ℓ} (encode : A → List Call) where
  abbrev pub encode_all : List A → List Call
  encode_all [] = []
  encode_all (a ∷ others) = encode a ++ encode_all others

  -- `Encode` of a slice; a nil slice is nil.
  abbrev pub encode_slice : Option (List A) → List Call
  encode_slice none = encode_nil ∷ []
  encode_slice (some elements) = encode_array_len (length elements) ∷ encode_all elements

-- What `json.Marshal` writes for a pointer and for a slice.
abbrev pub json_pointer {ℓ} : {A : Type ℓ} → (A → Json) → Option A → Json
json_pointer marshal none = null
json_pointer marshal (some a) = marshal a

module _ {ℓ} {A : Type ℓ} (marshal : A → Json) where
  abbrev pub json_all : List A → Items
  json_all [] = nil
  json_all (a ∷ others) = item (marshal a) (json_all others)

  abbrev pub json_slice : Option (List A) → Json
  json_slice none = null
  json_slice (some elements) = array (json_all elements)

-- The length that the map announces, which counts an optional field only when it is there.
abbrev pub plus_optional {ℓ} : {A : Type ℓ} → ℕ → Option A → ℕ
plus_optional n none = n
plus_optional n (some a) = n + 1

-- The optional field itself: its key and its value, or nothing at all.
abbrev pub optional_pair {ℓ} : {A : Type ℓ} → String → (A → List Call) → Option A → List Call
optional_pair key encode none = []
optional_pair key encode (some a) = encode_string key ∷ encode a

-- `omitempty` on a pointer.
abbrev pub omit_empty {ℓ} : {A : Type ℓ} → String → (A → Json) → Option A → Fields
omit_empty key marshal none = done
omit_empty key marshal (some a) = field key (marshal a) done
