-- ===== src/Signing/Reader.antt =====
-- What a MessagePack reader sees of the encoder's calls, and the value it reads from them: the
-- reader that the signed bytes of signing/l1_action.go are meant for. An integer is its value,
-- however the encoder was called for it.
use hypersdk_go.Json.{
  Json, Items, Fields, null, boolean, number, text, array, object, nil, item, done, field,
  count_items,
}
use hypersdk_go.Prelude.Int.{ℤ, pos}
use hypersdk_go.Prelude.{
  ℕ, zero, suc, ◌+◌, ◌≤◌, Bool, Option, none, some, String, List, [], ◌∷◌, ◌++◌, ◌≡◌, refl, ap,
  append_assoc, arith,
}
use hypersdk_go.Signing.Encoder.{
  Call, encode_map_len, encode_array_len, encode_string, encode_int, encode_uint, encode_bool,
  encode_nil,
}

pub data Item : Type 0 where
  a_map an_array : ℕ → Item
  a_text : String → Item
  a_number : ℤ → Item
  a_bool : Bool → Item
  a_nil : Item

abbrev pub item_of : Call → Item
item_of (encode_map_len n) = a_map n
item_of (encode_array_len n) = an_array n
item_of (encode_string s) = a_text s
item_of (encode_int z) = a_number z
item_of (encode_uint n) = a_number (pos n)
item_of (encode_bool b) = a_bool b
item_of encode_nil = a_nil

abbrev pub items : List Call → List Item
items [] = []
items (c ∷ cs) = item_of c ∷ items cs

pub items-append : (cs ds : List Call) → items (cs ++ ds) ≡ items cs ++ items ds
items-append [] ds = refl
items-append (c ∷ cs) ds = ap (λ is. item_of c ∷ is) (items-append cs ds)

infixl 5 ◌>>=◌
abbrev ◌>>=◌ {ℓ κ} : {A : Type ℓ} {B : Type κ} → Option A → (A → Option B) → Option B
none >>= next = none
some a >>= next = next a

-- One value, of at most `fuel` levels, and what follows it.
abbrev read_array :
    (List Item → Option (Json × List Item)) → ℕ → List Item → Option (Items × List Item)
read_array read zero is = some (nil, is)
read_array read (suc n) is = do
  (j, left) ← read is
  (js, rest) ← read_array read n left
  some (item j js, rest)

abbrev read_map :
    (List Item → Option (Json × List Item)) → ℕ → List Item → Option (Fields × List Item)
read_map read zero is = some (done, is)
read_map read (suc n) (a_text key ∷ is) = do
  (j, left) ← read is
  (fs, rest) ← read_map read n left
  some (field key j fs, rest)
read_map read (suc n) _ = none

unfoldable pub read : ℕ → List Item → Option (Json × List Item)
read zero is = none
read (suc fuel) [] = none
read (suc fuel) (a_nil ∷ is) = some (null, is)
read (suc fuel) (a_bool b ∷ is) = some (boolean b, is)
read (suc fuel) (a_number z ∷ is) = some (number z, is)
read (suc fuel) (a_text s ∷ is) = some (text s, is)
read (suc fuel) (an_array n ∷ is) = do
  (js, rest) ← read_array (read fuel) n is
  some (array js, rest)
read (suc fuel) (a_map n ∷ is) = do (fs, rest) ← read_map (read fuel) n is; some (object fs, rest)

-- A value written as the items that stand for it.
abbrev pub count_fields : Fields → ℕ
count_fields done = 0
count_fields (field key j fs) = suc (count_fields fs)

unfoldable mutual
  pub print : Json → List Item
  print null = a_nil ∷ []
  print (boolean b) = a_bool b ∷ []
  print (number z) = a_number z ∷ []
  print (text s) = a_text s ∷ []
  print (array js) = an_array (count_items js) ∷ print_items js
  print (object fs) = a_map (count_fields fs) ∷ print_fields fs

  pub print_items : Items → List Item
  print_items nil = []
  print_items (item j js) = print j ++ print_items js

  pub print_fields : Fields → List Item
  print_fields done = []
  print_fields (field key j fs) = a_text key ∷ (print j ++ print_fields fs)

-- The levels of a value, which is the fuel its reading takes.
unfoldable mutual
  pub levels : Json → ℕ
  levels (array js) = suc (levels_items js)
  levels (object fs) = suc (levels_fields fs)
  levels _ = 1

  levels_items : Items → ℕ
  levels_items nil = 0
  levels_items (item j js) = levels j + levels_items js

  levels_fields : Fields → ℕ
  levels_fields done = 0
  levels_fields (field key j fs) = levels j + levels_fields fs

levels_pos : (j : Json) → 1 ≤ levels j
unfolding levels
levels_pos null = omega arith
levels_pos (boolean b) = omega arith
levels_pos (number z) = omega arith
levels_pos (text s) = omega arith
levels_pos (array js) = omega arith
levels_pos (object fs) = omega arith

mutual
  unfolding read print levels count_items

  pub read-print :
      (j : Json) (fuel : ℕ) (rest : List Item)
      → levels j ≤ fuel
      → read fuel (print j ++ rest) ≡ some (j, rest)
  read-print j zero rest h = absurd (omega (arith, levels_pos j))
  read-print null (suc fuel) rest h = refl
  read-print (boolean b) (suc fuel) rest h = refl
  read-print (number z) (suc fuel) rest h = refl
  read-print (text s) (suc fuel) rest h = refl
  read-print (array js) (suc fuel) rest h = rw (read_array-print js fuel rest (omega arith))
  read-print (object fs) (suc fuel) rest h = rw (read_map-print fs fuel rest (omega arith))

  read_array-print :
      (js : Items) (fuel : ℕ) (rest : List Item)
      → levels_items js ≤ fuel
      → read_array (read fuel) (count_items js) (print_items js ++ rest) ≡ some (js, rest)
  read_array-print nil fuel rest h = refl
  read_array-print (item j js) fuel rest h = rw (
    append_assoc,
    read-print j fuel (print_items js ++ rest) (omega arith),
    read_array-print js fuel rest (omega arith),
  )

  read_map-print :
      (fs : Fields) (fuel : ℕ) (rest : List Item)
      → levels_fields fs ≤ fuel
      → read_map (read fuel) (count_fields fs) (print_fields fs ++ rest) ≡ some (fs, rest)
  read_map-print done fuel rest h = refl
  read_map-print (field key j fs) fuel rest h = rw (
    append_assoc,
    read-print j fuel (print_fields fs ++ rest) (omega arith),
    read_map-print fs fuel rest (omega arith),
  )
