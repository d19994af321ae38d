-- ===== src/Websocket/Wires/Canonical.antt =====
-- websocket/wire_identity.go: the canonical form of a subscription.
use hypersdk_go.Prelude.Texts.{to_lower}
use hypersdk_go.Prelude.Lower.{to_lower-twice}
use hypersdk_go.Json.{
  Json, Fields, null, boolean, number, text, array, object, done, field, get_field, as_text,
}
use hypersdk_go.Prelude.{
  ◌≡◌, refl, ap, sym, ◌∙◌, true, false, ◌||◌, Option, none, some, String, string_eq, ◌==◌,
  Bool-cases, inl, inr, arith,
}
use hypersdk_go.Websocket.Wires.{
  Wire, ignored_field, default_field, kept_value, canonical_value, put, canonical_fields, kind_of,
  canonical_wire,
}

abbrev pub value_or : Json → Option Json → Json
value_or v none = v
value_or v (some w) = w

-- A field that is not a user's is kept as it is, or dropped.
pub kept_value-same : (kind key : String) (v w : Json) → kept_value kind key v ≡ some w → v ≡ w
kept_value-same kind key v w h =
    elim (Bool-cases (ignored_field kind key || default_field kind key v)) [
      | inl drop ↦ let none_left : none ≡ some w = rw drop at h in cc
      | inr keep ↦ let kept : some v ≡ some w = rw keep at h in ap (value_or v) kept
    ]

fixed :
    (kind key : String) (v w : Json)
    → v ≡ w
    → canonical_value kind key v ≡ some w
    → canonical_value kind key w ≡ some w
fixed kind key v w same h = sym (ap (canonical_value kind key) same) ∙ h

canonical_text :
    (kind key s : String) (w : Json)
    → canonical_value kind key (text s) ≡ some w
    → canonical_value kind key w ≡ some w
unfolding canonical_value
canonical_text kind key s w h = elim (Bool-cases (key == "user")) [
  | inl user ↦
      let lower : some (text (to_lower s)) ≡ some w = rw user at h in
      let same : text (to_lower s) ≡ w = ap (value_or w) lower in
      let again : canonical_value kind key (text (to_lower s)) ≡ some (text (to_lower s)) =
        rw (user, to_lower-twice s) refl in
      fixed kind key (text (to_lower s)) w same (again ∙ ap some same)
  | inr other ↦
      let kept : kept_value kind key (text s) ≡ some w = rw other at h in
      fixed kind key (text s) w (kept_value-same kind key (text s) w kept) h
]

canonical_value-twice :
    (kind key : String) (v w : Json)
    → canonical_value kind key v ≡ some w
    → canonical_value kind key w ≡ some w
unfolding canonical_value
canonical_value-twice kind key (text s) w h = canonical_text kind key s w h
canonical_value-twice kind key null w h =
    fixed kind key null w (kept_value-same kind key null w h) h
canonical_value-twice kind key (boolean b) w h =
    fixed kind key (boolean b) w (kept_value-same kind key (boolean b) w h) h
canonical_value-twice kind key (number n) w h =
    fixed kind key (number n) w (kept_value-same kind key (number n) w h) h
canonical_value-twice kind key (array js) w h =
    fixed kind key (array js) w (kept_value-same kind key (array js) w h) h
canonical_value-twice kind key (object fs) w h =
    fixed kind key (object fs) w (kept_value-same kind key (object fs) w h) h

put-twice :
    (kind key : String) (kept : Option Json) (fs : Fields)
    → ((w : Json) → kept ≡ some w → canonical_value kind key w ≡ some w)
    → canonical_fields kind fs ≡ fs
    → canonical_fields kind (put key kept fs) ≡ put key kept fs
unfolding canonical_fields
put-twice kind key none fs h rest = rest
put-twice kind key (some w) fs h rest = rw (h w refl, rest) refl

canonical_fields-twice :
    (kind : String) (fs : Fields)
    → canonical_fields kind (canonical_fields kind fs) ≡ canonical_fields kind fs
unfolding canonical_fields
canonical_fields-twice kind done = refl
canonical_fields-twice kind (field key v more) =
    put-twice kind key (canonical_value kind key v) (canonical_fields kind more)
      (canonical_value-twice kind key v) (canonical_fields-twice kind more)

-- The type of a subscription is never dropped.
type_kept : (kind : String) (v : Json) → canonical_value kind "type" v ≡ some v
unfolding canonical_value ignored_field default_field
type_kept kind null = ground arith
type_kept kind (boolean true) = ground arith
type_kept kind (boolean false) = ground arith
type_kept kind (number n) = ground arith
type_kept kind (text s) = ground arith
type_kept kind (array js) = ground arith
type_kept kind (object fs) = ground arith

get_field-put_other :
    (name key : String) (kept : Option Json) (fs : Fields)
    → (key == name) ≡ false
    → get_field name (put key kept fs) ≡ get_field name fs
unfolding get_field
get_field-put_other name key none fs h = refl
get_field-put_other name key (some w) fs h = rw h refl

get_field-put_same :
    (name key : String) (v : Json) (fs : Fields)
    → (key == name) ≡ true
    → get_field name (field key v fs) ≡ some v
unfolding get_field
get_field-put_same name key v fs h = rw h refl

get_field-skip :
    (name key : String) (v : Json) (fs : Fields)
    → (key == name) ≡ false
    → get_field name (field key v fs) ≡ get_field name fs
unfolding get_field
get_field-skip name key v fs h = rw h refl

get_field-canonical_fields :
    (kind : String) (fs : Fields)
    → get_field "type" (canonical_fields kind fs) ≡ get_field "type" fs
unfolding canonical_fields
get_field-canonical_fields kind done = refl
get_field-canonical_fields kind (field key v more) = elim (Bool-cases (key == "type")) [
  | inl same ↦
      let kept : canonical_value kind key v ≡ some v =
        ap (λ k. canonical_value kind k v) ((string_eq.equals_iff key "type").0 same)
        ∙ type_kept kind v in
      rw kept (
        get_field-put_same "type" key v (canonical_fields kind more) same
        ∙ sym (get_field-put_same "type" key v more same))
  | inr other ↦
      get_field-put_other "type" key (canonical_value kind key v) (canonical_fields kind more) other
      ∙ get_field-canonical_fields kind more
      ∙ sym (get_field-skip "type" key v more other)
]

-- The canonical form drops no type.
pub kind_of-canonical_fields :
    (kind : String) (fs : Fields) → kind_of (canonical_fields kind fs) ≡ kind_of fs
kind_of-canonical_fields kind fs = ap as_text (get_field-canonical_fields kind fs)

pub canonical_wire-twice : (w : Wire) → canonical_wire (canonical_wire w) ≡ canonical_wire w
unfolding canonical_wire
canonical_wire-twice w =
    let kind = kind_of w.subscription in
    let fs = canonical_fields kind w.subscription in
    let again : canonical_fields (kind_of fs) fs ≡ fs =
      ap (λ k. canonical_fields k fs) (kind_of-canonical_fields kind w.subscription)
      ∙ canonical_fields-twice kind w.subscription in
    λ i. record { method = w.method; subscription = again i }
