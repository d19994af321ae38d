-- ===== src/Json.antt =====
-- The values of encoding/json, as the program sees them: what a payload marshals to, and what a
-- message unmarshals to. Numbers are the integers of the protocol, since prices and sizes travel as
-- strings.
use hypersdk_go.Prelude.Int.{ℤ}
use hypersdk_go.Prelude.{ℕ, suc, Bool, Option, none, some, String, string_eq, ◌==◌, if◌then◌else◌}

mutual
  pub data Json : Type 0 where
    null : Json
    boolean : Bool → Json
    number : ℤ → Json
    text : String → Json
    array : Items → Json
    object : Fields → Json

  pub data Items : Type 0 where
    nil : Items
    item : Json → Items → Items

  pub data Fields : Type 0 where
    done : Fields
    field : String → Json → Fields → Fields

-- `len` of a decoded array.
unfoldable pub count_items : Items → ℕ
count_items nil = 0
count_items (item j js) = suc (count_items js)

-- `object[name]`, of the first field with that name: a Go map has one at most.
unfoldable pub get_field : String → Fields → Option Json
get_field name done = none
get_field name (field key j fs) = if key == name then some j else get_field name fs

abbrev pub as_object : Json → Option Fields
as_object (object fs) = some fs
as_object _ = none

-- `value, _ := x.(string)`, which gives the empty string for another type.
abbrev pub as_text : Option Json → String
as_text (some (text s)) = s
as_text _ = ""
