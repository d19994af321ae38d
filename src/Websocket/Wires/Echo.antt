-- ===== src/Websocket/Wires/Echo.antt =====
-- websocket/wire_identity.go: an acknowledgement that echoes a subscription matches it.
use hypersdk_go.Prelude.Texts.{to_lower}
use hypersdk_go.Prelude.Lower.{to_lower-twice}
use hypersdk_go.Json.{
  Json, Fields, null, boolean, number, text, array, object, done, field, get_field,
}
use hypersdk_go.Asset.{int_beq_iff}
use hypersdk_go.Prelude.{
  ℕ, ◌+◌, ◌≡◌, refl, ap, sym, ◌∙◌, Bool, true, false, Option, none, some, String, string_eq, ◌==◌,
  ==_refl, if◌then◌else◌, Bool-cases, inl, inr, arith,
}
use hypersdk_go.Websocket.Wires.{
  kept_value, canonical_value, put, canonical_fields, kind_of, same_value, same_user, field_equal,
  ack_compatible, weight, field_score, score_fields, match_score,
}
use hypersdk_go.Websocket.Wires.Canonical.{value_or, kept_value-same, kind_of-canonical_fields}

-- No key twice.
abbrev pub Unrepeated : Fields → Type 0
Unrepeated done = Unit
Unrepeated (field key v more) = (get_field key more ≡ none) × Unrepeated more

abbrev is_text : Json → Bool
is_text (text s) = true
is_text _ = false

abbrev is_scalar : Json → Bool
is_scalar (array js) = false
is_scalar (object fs) = false
is_scalar _ = true

-- A field of a subscription: a user is a text, and no value is an array or an object.
abbrev pub well_typed : String → Json → Bool
well_typed key v = if key == "user" then is_text v else is_scalar v

abbrev pub WellTyped : Fields → Type 0
WellTyped done = Unit
WellTyped (field key v more) = (well_typed key v ≡ true) × WellTyped more

-- The number of fields that are no default.
abbrev pub full_score : String → Fields → ℕ
full_score kind done = 0
full_score kind (field key v more) = weight kind key v + full_score kind more

-- The response has every field, with an equal value.
abbrev Echoed : Fields → Fields → Type 0
Echoed response done = Unit
Echoed response (field key v more) =
    ((a : Json) × (get_field key response ≡ some a) × (field_equal key v a ≡ true))
    × Echoed response more

score-field :
    (kind key : String) (v a : Json) (response : Fields)
    → get_field key response ≡ some a
    → field_equal key v a ≡ true
    → field_score kind key v response ≡ some (weight kind key v)
unfolding field_score
score-field kind key v a response found equal =
    elim (Bool-cases (ack_compatible kind key v response)) [
      | inl compatible ↦ rw compatible refl
      | inr other ↦ rw (other, found, equal) refl
    ]

Echoed-score_fields :
    (kind : String) (response request : Fields)
    → Echoed response request
    → score_fields kind response request ≡ some (full_score kind request)
unfolding score_fields
Echoed-score_fields kind response done e = refl
Echoed-score_fields kind response (field key v more) e =
    rw
      (
        score-field kind key v e.0.0 response e.0.1 e.0.2,
        Echoed-score_fields kind response more e.1,
      )
      refl

same_value-itself : (v : Json) → is_scalar v ≡ true → same_value v v ≡ true
unfolding same_value
same_value-itself null h = refl
same_value-itself (boolean true) h = refl
same_value-itself (boolean false) h = refl
same_value-itself (number n) h = (int_beq_iff n n).1 refl
same_value-itself (text s) h = ==_refl s
same_value-itself (array js) h = cc
same_value-itself (object fs) h = cc

same_user-itself : (v : Json) → is_text v ≡ true → same_user v v ≡ true
same_user-itself (text s) h = ==_refl (to_lower s)
same_user-itself null h = cc
same_user-itself (boolean b) h = cc
same_user-itself (number n) h = cc
same_user-itself (array js) h = cc
same_user-itself (object fs) h = cc

field_equal-itself :
    (key : String) (v : Json) → well_typed key v ≡ true → field_equal key v v ≡ true
unfolding field_equal
field_equal-itself key v h = elim (Bool-cases (key == "user")) [
  | inl user ↦ let is_user : is_text v ≡ true = rw user at h in rw user (same_user-itself v is_user)
  | inr other ↦
      let scalar : is_scalar v ≡ true = rw other at h in rw other (same_value-itself v scalar)
]

kept_value-equal :
    (kind key : String) (v w : Json)
    → well_typed key v ≡ true
    → kept_value kind key v ≡ some w
    → field_equal key w v ≡ true
kept_value-equal kind key v w t h =
    ap (λ x. field_equal key x v) (sym (kept_value-same kind key v w h))
    ∙ field_equal-itself key v t

lowered-equal :
    (key s : String) → (key == "user") ≡ true → field_equal key (text (to_lower s)) (text s) ≡ true
unfolding field_equal
lowered-equal key s user = rw (user, to_lower-twice s) (==_refl (to_lower s))

-- A value that the canonical form keeps is equal to the one before.
canonical_value-equal :
    (kind key : String) (v w : Json)
    → well_typed key v ≡ true
    → canonical_value kind key v ≡ some w
    → field_equal key w v ≡ true
unfolding canonical_value
canonical_value-equal kind key (text s) w t h = elim (Bool-cases (key == "user")) [
  | inl user ↦
      let lower : some (text (to_lower s)) ≡ some w = rw user at h in
      ap (λ x. field_equal key x (text s)) (sym (ap (value_or w) lower)) ∙ lowered-equal key s user
  | inr other ↦
      let kept : kept_value kind key (text s) ≡ some w = rw other at h in
      kept_value-equal kind key (text s) w t kept
]
canonical_value-equal kind key null w t h = kept_value-equal kind key null w t h
canonical_value-equal kind key (boolean b) w t h = kept_value-equal kind key (boolean b) w t h
canonical_value-equal kind key (number n) w t h = kept_value-equal kind key (number n) w t h
canonical_value-equal kind key (array js) w t h = kept_value-equal kind key (array js) w t h
canonical_value-equal kind key (object fs) w t h = kept_value-equal kind key (object fs) w t h

-- The response has every field as it is.
abbrev Holds : Fields → Fields → Type 0
Holds response done = Unit
Holds response (field key v more) = (get_field key response ≡ some v) × Holds response more

Holds-more :
    (key : String) (v : Json) (response more : Fields)
    → get_field key more ≡ none
    → Holds response more
    → Holds (field key v response) more
unfolding get_field
Holds-more key v response done absent h = tt
Holds-more key v response (field k w more) absent h =
    ground (
      arith,
      string_eq.equals_iff key k,
      string_eq.equals_iff k key,
      Holds-more key v response more,
    )

Holds-itself : (fs : Fields) → Unrepeated fs → Holds fs fs
unfolding get_field
Holds-itself done u = tt
Holds-itself (field key v more) u =
    (rw (==_refl key) refl, Holds-more key v more more u.0 (Holds-itself more u.1))

put-Echoed :
    (kind key : String) (v : Json) (kept : Option Json) (response rest : Fields)
    → get_field key response ≡ some v
    → ((w : Json) → kept ≡ some w → field_equal key w v ≡ true)
    → Echoed response rest
    → Echoed response (put key kept rest)
put-Echoed kind key v none response rest found equal e = e
put-Echoed kind key v (some w) response rest found equal e = ((v, found, equal w refl), e)

canonical_fields-Echoed :
    (kind : String) (response fs : Fields)
    → Holds response fs
    → WellTyped fs
    → Echoed response (canonical_fields kind fs)
unfolding canonical_fields
canonical_fields-Echoed kind response done h t = tt
canonical_fields-Echoed kind response (field key v more) h t =
    put-Echoed kind key v (canonical_value kind key v) response (canonical_fields kind more) h.0
      (λ w kept. canonical_value-equal kind key v w t.0 kept)
      (canonical_fields-Echoed kind response more h.1 t.1)

Holds-Echoed : (response fs : Fields) → Holds response fs → WellTyped fs → Echoed response fs
Holds-Echoed response done h t = tt
Holds-Echoed response (field key v more) h t =
    ((v, h.0, field_equal-itself key v t.0), Holds-Echoed response more h.1 t.1)

pub match_score-echo :
    (fs : Fields)
    → Unrepeated fs
    → WellTyped fs
    → (match_score fs fs ≡ some (full_score (kind_of fs) fs))
      × (match_score (canonical_fields (kind_of fs) fs) fs
          ≡ some (full_score (kind_of fs) (canonical_fields (kind_of fs) fs)))
unfolding match_score
match_score-echo fs u t =
    let kind = kind_of fs in
    let canonical = canonical_fields kind fs in
    let held = Holds-itself fs u in
    (
      Echoed-score_fields kind fs fs (Holds-Echoed fs fs held t),
      ap (λ k. score_fields k fs canonical) (kind_of-canonical_fields kind fs)
          ∙ Echoed-score_fields kind fs canonical (canonical_fields-Echoed kind fs fs held t),
    )
