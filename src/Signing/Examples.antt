-- ===== src/Signing/Examples.antt =====
-- Witnesses and runs for signing/.
use Prim.Native.String.{String}
use Prim.Native.Char.{code}
use text.Mathlib.TextEquality.{Char-path}
use hypersdk_go.Json.{Json}
use hypersdk_go.Prelude.Int.{pos, negsuc}
use hypersdk_go.Prelude.Texts.{parse_uint, codes}
use hypersdk_go.Prelude.{
  ℕ, suc, Bool, true, false, Option, some, List, [], none, string_eq, ◌∷◌, ◌++◌, ◌≡◌, refl, ap, All,
  arith, ok, ltb, ◌+◌, ◌↔◌,
}
use hypersdk_go.Signing.Users.Actions.{UserAction, approve_agent}
use hypersdk_go.Signing.Encoder.{
  Call, encode_map_len, encode_array_len, encode_string, encode_int, encode_uint, encode_bool,
}
use hypersdk_go.Signing.Reader.{
  Item, item_of, items, read, levels, a_map, an_array, a_text, a_number, a_bool, a_nil,
}
use hypersdk_go.Signing.Orders.{
  builder_wire, order_type_wire, OrderWire, order_wire, order_action, limit_order_type,
}
use hypersdk_go.Signing.Actions.{L1Action, marshal_msgpack, marshal_json, order}
use hypersdk_go.Signing.Forms.{marshal_msgpack-BothAgree}
use hypersdk_go.Signing.Validated.{BothAgree}
use hypersdk_go.Signing.Preimage.{Fits}
use hypersdk_go.Signing.Digests.{read-marshal_msgpack, l1_data-commits}
use hypersdk_go.Signing.Deploy.Checks.{
  require, DecimalLibrary, Keyed, sorted_loop, unsigned_decimal,
}
use hypersdk_go.Signing.Deploy.Sorted.{Accepted, sorted_loop-iff-Accepted}

-- A writer whose items begin with their kind; a text ends with a zero.
abbrev text_bytes : String → List ℕ
text_bytes String.[] = 0 ∷ []
text_bytes (String.◌∷◌ c s) = suc (code c) ∷ text_bytes s

abbrev item_bytes : Item → List ℕ
item_bytes (a_map n) = 0 ∷ n ∷ []
item_bytes (an_array n) = 1 ∷ n ∷ []
item_bytes (a_text s) = 2 ∷ text_bytes s
item_bytes (a_number (pos n)) = 3 ∷ 0 ∷ n ∷ []
item_bytes (a_number (negsuc n)) = 3 ∷ 1 ∷ n ∷ []
item_bytes (a_bool true) = 4 ∷ 1 ∷ []
item_bytes (a_bool false) = 4 ∷ 0 ∷ []
item_bytes a_nil = 5 ∷ []

abbrev plain_writer : Call → List ℕ
plain_writer c = item_bytes (item_of c)

text_bytes-split :
    (s t : String) (xs ys : List ℕ) → text_bytes s ++ xs ≡ text_bytes t ++ ys → (s ≡ t) × (xs ≡ ys)
text_bytes-split String.[] String.[] xs ys h = (refl, cc)
text_bytes-split String.[] (String.◌∷◌ d t) xs ys h = absurd (cc)
text_bytes-split (String.◌∷◌ c s) String.[] xs ys h = absurd (cc)
text_bytes-split (String.◌∷◌ c s) (String.◌∷◌ d t) xs ys h =
    let (same, rest) = text_bytes-split s t xs ys (cc h) in
    let first : c ≡ d = Char-path c d (cc h) in (cc (first, same), rest)

item_bytes-split :
    (i j : Item) (xs ys : List ℕ) → item_bytes i ++ xs ≡ item_bytes j ++ ys → (i ≡ j) × (xs ≡ ys)
item_bytes-split (a_map m) (a_map n) xs ys h = (cc, cc)
item_bytes-split (a_map m) (an_array n) xs ys h = absurd cc
item_bytes-split (a_map m) (a_text t) xs ys h = absurd cc
item_bytes-split (a_map m) (a_number (pos n)) xs ys h = absurd cc
item_bytes-split (a_map m) (a_number (negsuc n)) xs ys h = absurd cc
item_bytes-split (a_map m) (a_bool true) xs ys h = absurd cc
item_bytes-split (a_map m) (a_bool false) xs ys h = absurd cc
item_bytes-split (a_map m) a_nil xs ys h = absurd cc
item_bytes-split (an_array m) (a_map n) xs ys h = absurd cc
item_bytes-split (an_array m) (an_array n) xs ys h = (cc, cc)
item_bytes-split (an_array m) (a_text t) xs ys h = absurd cc
item_bytes-split (an_array m) (a_number (pos n)) xs ys h = absurd cc
item_bytes-split (an_array m) (a_number (negsuc n)) xs ys h = absurd cc
item_bytes-split (an_array m) (a_bool true) xs ys h = absurd cc
item_bytes-split (an_array m) (a_bool false) xs ys h = absurd cc
item_bytes-split (an_array m) a_nil xs ys h = absurd cc
item_bytes-split (a_text s) (a_map n) xs ys h = absurd cc
item_bytes-split (a_text s) (an_array n) xs ys h = absurd cc
item_bytes-split (a_text s) (a_text t) xs ys h =
    let (same, rest) = text_bytes-split s t xs ys (cc h) in (ap a_text same, rest)
item_bytes-split (a_text s) (a_number (pos n)) xs ys h = absurd cc
item_bytes-split (a_text s) (a_number (negsuc n)) xs ys h = absurd cc
item_bytes-split (a_text s) (a_bool true) xs ys h = absurd cc
item_bytes-split (a_text s) (a_bool false) xs ys h = absurd cc
item_bytes-split (a_text s) a_nil xs ys h = absurd cc
item_bytes-split (a_number (pos m)) (a_map n) xs ys h = absurd cc
item_bytes-split (a_number (pos m)) (an_array n) xs ys h = absurd cc
item_bytes-split (a_number (pos m)) (a_text t) xs ys h = absurd cc
item_bytes-split (a_number (pos m)) (a_number (pos n)) xs ys h = (cc, cc)
item_bytes-split (a_number (pos m)) (a_number (negsuc n)) xs ys h = absurd cc
item_bytes-split (a_number (pos m)) (a_bool true) xs ys h = absurd cc
item_bytes-split (a_number (pos m)) (a_bool false) xs ys h = absurd cc
item_bytes-split (a_number (pos m)) a_nil xs ys h = absurd cc
item_bytes-split (a_number (negsuc m)) (a_map n) xs ys h = absurd cc
item_bytes-split (a_number (negsuc m)) (an_array n) xs ys h = absurd cc
item_bytes-split (a_number (negsuc m)) (a_text t) xs ys h = absurd cc
item_bytes-split (a_number (negsuc m)) (a_number (pos n)) xs ys h = absurd cc
item_bytes-split (a_number (negsuc m)) (a_number (negsuc n)) xs ys h = (cc, cc)
item_bytes-split (a_number (negsuc m)) (a_bool true) xs ys h = absurd cc
item_bytes-split (a_number (negsuc m)) (a_bool false) xs ys h = absurd cc
item_bytes-split (a_number (negsuc m)) a_nil xs ys h = absurd cc
item_bytes-split (a_bool true) (a_map n) xs ys h = absurd cc
item_bytes-split (a_bool true) (an_array n) xs ys h = absurd cc
item_bytes-split (a_bool true) (a_text t) xs ys h = absurd cc
item_bytes-split (a_bool true) (a_number (pos n)) xs ys h = absurd cc
item_bytes-split (a_bool true) (a_number (negsuc n)) xs ys h = absurd cc
item_bytes-split (a_bool true) (a_bool true) xs ys h = (cc, cc)
item_bytes-split (a_bool true) (a_bool false) xs ys h = absurd cc
item_bytes-split (a_bool true) a_nil xs ys h = absurd cc
item_bytes-split (a_bool false) (a_map n) xs ys h = absurd cc
item_bytes-split (a_bool false) (an_array n) xs ys h = absurd cc
item_bytes-split (a_bool false) (a_text t) xs ys h = absurd cc
item_bytes-split (a_bool false) (a_number (pos n)) xs ys h = absurd cc
item_bytes-split (a_bool false) (a_number (negsuc n)) xs ys h = absurd cc
item_bytes-split (a_bool false) (a_bool true) xs ys h = absurd cc
item_bytes-split (a_bool false) (a_bool false) xs ys h = (cc, cc)
item_bytes-split (a_bool false) a_nil xs ys h = absurd cc
item_bytes-split a_nil (a_map n) xs ys h = absurd cc
item_bytes-split a_nil (an_array n) xs ys h = absurd cc
item_bytes-split a_nil (a_text t) xs ys h = absurd cc
item_bytes-split a_nil (a_number (pos n)) xs ys h = absurd cc
item_bytes-split a_nil (a_number (negsuc n)) xs ys h = absurd cc
item_bytes-split a_nil (a_bool true) xs ys h = absurd cc
item_bytes-split a_nil (a_bool false) xs ys h = absurd cc
item_bytes-split a_nil a_nil xs ys h = (cc, cc)

-- A decimal library of whole numbers.
abbrev whole_numbers : DecimalLibrary
whole_numbers = record {
  Decimal = ℕ;
  new_from_string = λ s. parse_uint (codes s);
  new_from_int = λ n. n;
  one_hundredth = 0;
  is_positive = λ n. ltb 0 n;
  is_negative = λ n. false;
  abs = λ n. n;
  greater_than = λ m n. ltb n m;
}

abbrev any_text : String → Bool
any_text s = true

-- A limit order with a client ID and a builder.
abbrev sample_order : OrderWire
sample_order = record {
  asset = pos 3;
  is_buy = true;
  price = "1800";
  size = "0.5";
  reduce_only = false;
  order_type = some (limit_order_type "Gtc");
  cloid = some "0x01";
}

abbrev sample_action : L1Action
sample_action = order (record {
  orders = some (sample_order ∷ []);
  grouping = "na";
  builder = some (record { address = "0xb1"; fee = 10 });
})

abbrev sample_calls : List Call
sample_calls =
    encode_map_len 4
    ∷ encode_string "type"
    ∷ encode_string "order"
    ∷ encode_string "orders"
    ∷ encode_array_len 1
    ∷ encode_map_len 7
    ∷ encode_string "a"
    ∷ encode_int (pos 3)
    ∷ encode_string "b"
    ∷ encode_bool true
    ∷ encode_string "p"
    ∷ encode_string "1800"
    ∷ encode_string "s"
    ∷ encode_string "0.5"
    ∷ encode_string "r"
    ∷ encode_bool false
    ∷ encode_string "t"
    ∷ encode_map_len 1
    ∷ encode_string "limit"
    ∷ encode_map_len 1
    ∷ encode_string "tif"
    ∷ encode_string "Gtc"
    ∷ encode_string "c"
    ∷ encode_string "0x01"
    ∷ encode_string "grouping"
    ∷ encode_string "na"
    ∷ encode_string "builder"
    ∷ encode_map_len 2
    ∷ encode_string "b"
    ∷ encode_string "0xb1"
    ∷ encode_string "f"
    ∷ encode_uint 10
    ∷ []

sample_encoded :
    marshal_msgpack any_text any_text any_text whole_numbers sample_action ≡ ok sample_calls
unfolding marshal_msgpack order_action order_wire order_type_wire builder_wire
sample_encoded = refl

abbrev sample_vault : List ℕ
sample_vault =
    1 ∷ 2 ∷ 3 ∷ 4 ∷ 5 ∷ 6 ∷ 7 ∷ 8 ∷ 9 ∷ 10 ∷ 11 ∷ 12 ∷ 13 ∷ 14 ∷ 15 ∷ 16 ∷ 17 ∷ 18 ∷ 19 ∷ 20 ∷ []

sample_in_range : All Fits sample_calls
sample_in_range = ground arith

marshal_msgpack-BothAgree_example :
    BothAgree
      (marshal_msgpack any_text any_text any_text whole_numbers sample_action)
      (marshal_json any_text any_text any_text whole_numbers sample_action)
marshal_msgpack-BothAgree_example =
    marshal_msgpack-BothAgree any_text any_text any_text whole_numbers sample_action

read-marshal_msgpack_example :
    (j : Json) × (marshal_json any_text any_text any_text whole_numbers sample_action ≡ ok j)
    × (read (levels j + 0) (items sample_calls ++ (a_nil ∷ [])) ≡ some (j, a_nil ∷ []))
read-marshal_msgpack_example =
    read-marshal_msgpack any_text any_text any_text whole_numbers sample_action sample_calls 0
      (a_nil ∷ []) sample_encoded

l1_data-commits_example :
    (marshal_json any_text any_text any_text whole_numbers sample_action
      ≡ marshal_json any_text any_text any_text whole_numbers sample_action)
    × (◌≡◌ {A = ℕ} 1700000000000 1700000000000)
    × (some sample_vault ≡ some sample_vault)
    × (◌≡◌ {A = Option ℕ} (some 5) (some 5))
l1_data-commits_example =
    l1_data-commits any_text any_text any_text whole_numbers plain_writer sample_action
      sample_action sample_calls sample_calls 1700000000000 1700000000000 (some sample_vault)
      (some sample_vault) (some 5) (some 5)
      (λ c d xs ys _ _ h. item_bytes-split (item_of c) (item_of d) xs ys h) sample_encoded
      sample_encoded sample_in_range sample_in_range (omega arith, refl, omega arith)
      (omega arith, refl, omega arith) refl

-- Tuples in order, of which the second has a value to refuse.
abbrev sorted_prices : List (Keyed String)
sorted_prices =
    (record { key = "BTC"; value = "65000" }) ∷ (record { key = "ETH"; value = "3000" }) ∷ []

sorted_loop-iff-Accepted_example :
    (sorted_loop
        (λ v. require (unsigned_decimal whole_numbers v.value) "no")
        "unsorted"
        ""
        sorted_prices
      ≡ ok tt)
    ↔ (Accepted
        (λ v. require (unsigned_decimal whole_numbers v.value) "no")
        "unsorted"
        sorted_prices)
sorted_loop-iff-Accepted_example =
    sorted_loop-iff-Accepted (λ v. require (unsigned_decimal whole_numbers v.value) "no") "unsorted"
      sorted_prices

-- An approval of an agent without a name.
abbrev sample_approval : UserAction String
sample_approval = approve_agent (record { agent_address = "0xA1"; agent_name = none; nonce = 12 })
