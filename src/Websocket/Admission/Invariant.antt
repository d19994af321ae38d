-- ===== src/Websocket/Admission/Invariant.antt =====
-- websocket/admission.go: what holds of a gate between two calls.
use hypersdk_go.Prelude.Maps.{
  lookup, insert, Distinct, insert-Distinct, delete-Distinct, length-insert_new, length-insert_old,
  length-delete, Positive, lookup_of_pos, count_keys-insert_old, count_keys-delete, insert-Positive,
  delete-Positive,
}
use text.Mathlib.TextPositions.{eq_refl}
use hypersdk_go.Prelude.{
  ℕ, ◌+◌, ◌-◌, ltb, leb, ◌≡◌, ◌≤◌, ◌<◌, ◌⊎◌, true, false, not, ◌&&◌, none, some, String, string_eq,
  nat_eq, ◌==◌, arith, Bool-cases, inl, inr, length, Option-cases,
}
use hypersdk_go.Websocket.Admission.{
  Key, key_eq, Gate, references_of, user_references_of, bump_user, drop_user, acquire_key,
  release_key,
}
use hypersdk_go.Websocket.Admission.Counts.{
  CountsUsers, keys_of, bump_user-CountsUsers, drop_user-CountsUsers,
}

pub record IsValid (g : Gate) : Type 0 where
  pub refs_distinct : Distinct g.references
  pub refs_positive : Positive g.references
  pub subscriptions_le : length g.references ≤ g.max_subscriptions
  pub users_le : length g.user_references ≤ g.max_users
  pub users : CountsUsers g.user_references g.references

bump_user_le :
    (u : String) (g : Gate)
    → IsValid g
    → (not (u == "") && user_references_of g u == 0 && leb g.max_users (length g.user_references))
      ≡ false
    → length (bump_user u g) ≤ g.max_users
bump_user_le u g v room = elim (Option-cases (lookup u g.user_references)) [
  | inl new ↦ ground (
    arith,
    new,
    v.users_le,
    room,
    length-insert_new u (user_references_of g u + 1) g.user_references new,
  )
  | inr (n, old) ↦ ground (
    arith,
    old,
    v.users_le,
    length-insert_old u (user_references_of g u + 1) n g.user_references old,
  )
]

drop_user_le :
    (u : String) (g : Gate)
    → IsValid g
    → 0 < user_references_of g u ⊎ ((u == "") ≡ true)
    → length (drop_user u g) ≤ g.max_users
drop_user_le u g v held = elim (Option-cases (lookup u g.user_references)) [
  | inl new ↦ ground (arith, new, v.users_le)
  | inr (n, old) ↦ ground (
    arith,
    old,
    v.users_le,
    length-insert_old u (user_references_of g u - 1) n g.user_references old,
    length-delete u n g.user_references v.users.distinct old,
  )
]

-- A key that was counted before is counted once more, or once less; nothing else moves.
recount-IsValid :
    (k : Key) (g : Gate) (n m : ℕ)
    → IsValid g
    → lookup k g.references ≡ some m
    → 0 < n
    → IsValid (record g { references = insert k n g.references })
recount-IsValid k g n m v old h = record {
  refs_distinct = insert-Distinct k n g.references v.refs_distinct;
  refs_positive = insert-Positive k n g.references h v.refs_positive;
  subscriptions_le = omega (arith, v.subscriptions_le, length-insert_old k n m g.references old);
  users_le = v.users_le;
  users = record {
    distinct = v.users.distinct;
    positive = v.users.positive;
    unnamed = v.users.unnamed;
    counted = λ u named. omega (
      arith,
      v.users.counted u named,
      count_keys-insert_old (λ (j : Key). j.user == u) k n m g.references old,
    );
  };
}

fresh-IsValid :
    (k : Key) (g : Gate)
    → IsValid g
    → lookup k g.references ≡ none
    → leb g.max_subscriptions (length g.references) ≡ false
    → (not (k.user == "")
        && user_references_of g k.user == 0
        && leb g.max_users (length g.user_references))
      ≡ false
    → IsValid
        (record g { references = insert k 1 g.references; user_references = bump_user k.user g })
fresh-IsValid k g v new room seats = record {
  refs_distinct = insert-Distinct k 1 g.references v.refs_distinct;
  refs_positive = insert-Positive k 1 g.references (omega arith) v.refs_positive;
  subscriptions_le = ground (arith, length-insert_new k 1 g.references new);
  users_le = bump_user_le k.user g v seats;
  users = bump_user-CountsUsers k g new v.users;
}

-- An acquisition keeps the gate valid, whether it succeeds or fails.
pub acquire_key-IsValid : (k : Key) (g : Gate) → IsValid g → IsValid (acquire_key k g).1
unfolding acquire_key
acquire_key-IsValid k g v = elim (Option-cases (lookup k g.references)) [
  | inl new ↦ elim (Bool-cases (leb g.max_subscriptions (length g.references))) [
    | inl full ↦ rw (new, acquire_key, full) v
    | inr room ↦
        elim (Bool-cases (
          not (k.user == "")
          && user_references_of g k.user == 0
          && leb g.max_users (length g.user_references))) [
            | inl full ↦ rw (new, acquire_key, room, full) v
            | inr seats ↦ rw (new, acquire_key, room, seats) (fresh-IsValid k g v new room seats)
          ]
  ]
  | inr (n, old) ↦ elim (Bool-cases (n == 0)) [
    | inl zero' ↦ absurd (v.refs_positive k (ground (arith, old)))
    | inr more ↦ rw (old, acquire_key, more) (recount-IsValid k g (n + 1) n v old (omega arith))
  ]
]

keys_of_self :
    (k : Key) (g : Gate) (n : ℕ)
    → IsValid g
    → lookup k g.references ≡ some n
    → 0 < keys_of k.user g.references
keys_of_self k g n v old = ground (
  arith,
  count_keys-delete (λ (j : Key). j.user == k.user) k n g.references v.refs_distinct old,
  eq_refl k.user,
)

user_of_key :
    (k : Key) (g : Gate) (n : ℕ)
    → IsValid g
    → lookup k g.references ≡ some n
    → (0 < user_references_of g k.user) ⊎ ((k.user == "") ≡ true)
user_of_key k g n v old = elim (Bool-cases (k.user == "")) [
  | inl empty ↦ inr empty
  | inr named ↦ inl (omega (arith, v.users.counted k.user named, keys_of_self k g n v old))
]

-- So does a release of a key that is held.
pub release_key-IsValid :
    (k : Key) (g : Gate) → 0 < references_of g k → IsValid g → IsValid (release_key k g)
unfolding release_key
release_key-IsValid k g held v =
    let n = references_of g k in
    let old = lookup_of_pos k g.references held in
    elim (Bool-cases (ltb 1 n)) [
      | inl many ↦ rw many (recount-IsValid k g (n - 1) n v old (ground arith))
      | inr last ↦ rw last (record {
        refs_distinct = delete-Distinct k g.references v.refs_distinct;
        refs_positive = delete-Positive k g.references v.refs_positive;
        subscriptions_le =
            omega (arith, v.subscriptions_le, length-delete k n g.references v.refs_distinct old);
        users_le = drop_user_le k.user g v (user_of_key k g n v old);
        users = drop_user-CountsUsers k g n v.refs_distinct old v.users;
      })
    ]
