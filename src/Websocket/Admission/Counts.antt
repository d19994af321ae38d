-- ===== src/Websocket/Admission/Counts.antt =====
-- websocket/admission.go: the count of users follows the references, one per key.
use hypersdk_go.Prelude.Maps.{
  or_zero, lookup, insert, delete, lookup-insert, lookup-delete, Distinct, insert-Distinct,
  delete-Distinct, count_keys, count_keys-insert_new, count_keys-delete, Positive, insert-Positive,
  delete-Positive,
}
use text.Mathlib.TextEquality.{eq_iff}
use hypersdk_go.Prelude.{
  ℕ, ◌+◌, ◌-◌, ltb, ◌≡◌, false, none, some, List, String, string_eq, ◌==◌, if◌then◌else◌, arith,
  Bool-cases, inl, inr,
}
use hypersdk_go.Websocket.Admission.{Key, key_eq, Gate, user_references_of, bump_user, drop_user}

-- The keys that name a user.
abbrev pub keys_of : String → List (Key × ℕ) → ℕ
keys_of u = count_keys (λ (k : Key). k.user == u)

-- The user counts are what the references say, for every user but the empty one.
pub record CountsUsers (users : List (String × ℕ)) (refs : List (Key × ℕ)) : Type 0 where
  pub distinct : Distinct users
  pub positive : Positive users
  pub unnamed : lookup "" users ≡ none
  pub counted : (u : String) → (u == "") ≡ false → or_zero (lookup u users) ≡ keys_of u refs

pub bump_user-CountsUsers :
    (k : Key) (g : Gate)
    → lookup k g.references ≡ none
    → CountsUsers g.user_references g.references
    → CountsUsers (bump_user k.user g) (insert k 1 g.references)
bump_user-CountsUsers k g new c = elim (Bool-cases (k.user == "")) [
  | inl empty ↦ rw empty (record {
    distinct = c.distinct;
    positive = c.positive;
    unnamed = c.unnamed;
    counted = λ u named. ground (
      arith,
      c.counted u named,
      count_keys-insert_new (λ (j : Key). j.user == u) k 1 g.references new,
      eq_iff k.user u,
      eq_iff k.user "",
      eq_iff u "",
    );
  })
  | inr named' ↦ rw named' (record {
    distinct = insert-Distinct k.user _ g.user_references c.distinct;
    positive =
        insert-Positive k.user (user_references_of g k.user + 1) g.user_references (omega arith)
          c.positive;
    unnamed = ground (
      arith,
      c.unnamed,
      lookup-insert k.user "" (user_references_of g k.user + 1) g.user_references,
    );
    counted = λ u named. ground (
      arith,
      c.counted u named,
      c.counted k.user named',
      count_keys-insert_new (λ (j : Key). j.user == u) k 1 g.references new,
      eq_iff k.user u,
      lookup-insert k.user u (user_references_of g k.user + 1) g.user_references,
    );
  })
]

pub drop_user-CountsUsers :
    (k : Key) (g : Gate) (n : ℕ)
    → Distinct g.references
    → lookup k g.references ≡ some n
    → CountsUsers g.user_references g.references
    → CountsUsers (drop_user k.user g) (delete k g.references)
drop_user-CountsUsers k g n d old c = elim (Bool-cases (k.user == "")) [
  | inl empty ↦ rw empty (record {
    distinct = c.distinct;
    positive = c.positive;
    unnamed = c.unnamed;
    counted = λ u named.
        ground (arith, c.counted u named, fewer u, eq_iff k.user u, eq_iff k.user "", eq_iff u "");
  })
  | inr named' ↦ elim (Bool-cases (ltb 1 held)) [
    | inl many ↦
        rw (named', many)
          (record {
            distinct = insert-Distinct k.user _ users c.distinct;
            positive = insert-Positive k.user (held - 1) users (ground arith) c.positive;
            unnamed = ground (arith, c.unnamed, lookup-insert k.user "" (held - 1) users);
            counted = λ u named. ground (
              arith,
              c.counted u named,
              c.counted k.user named',
              fewer u,
              eq_iff k.user u,
              lookup-insert k.user u (held - 1) users,
            );
          })
    | inr last ↦
        rw (named', last)
          (record {
            distinct = delete-Distinct k.user users c.distinct;
            positive = delete-Positive k.user users c.positive;
            unnamed = ground (arith, c.unnamed, lookup-delete k.user "" users);
            counted = λ u named. ground (
              arith,
              c.counted u named,
              c.counted k.user named',
              fewer u,
              eq_iff k.user u,
              lookup-delete k.user u users,
            );
          })
  ]
]
  where
    users : List (String × ℕ)
    users = g.user_references

    held : ℕ
    held = user_references_of g k.user

    fewer :
        (u : String)
        → keys_of u (delete k g.references) + (if k.user == u then 1 else 0)
          ≡ keys_of u g.references
    fewer u = count_keys-delete (λ (j : Key). j.user == u) k n g.references d old
