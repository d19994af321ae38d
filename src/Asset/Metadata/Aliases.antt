-- ===== src/Asset/Metadata/Aliases.antt =====
-- asset/meta_resolver.go: a symbol of the base metadata finds the assets with that symbol and those
-- with that alias.
use Prim.Native.String.{String}
use hypersdk_go.Prelude.Int.{ℤ}
use hypersdk_go.Prelude.Maps.{lookup, insert, lookup-insert, Distinct, insert-Distinct}
use hypersdk_go.Prelude.{
  ◌≡◌, refl, ap, sym, ◌∙◌, not, ◌==◌, string_eq, Option, none, some, List, [], ◌∷◌, ◌++◌,
  append_assoc, append-nil, if◌then◌else◌, ok, err, ◌>>=◌, Bool-cases, inl, inr, bind-eq-ok, keep,
}
use hypersdk_go.Asset.{Asset, perp, or_nil, index_by, int_eq}
use hypersdk_go.Asset.Index.{index-lookup}
use hypersdk_go.Asset.Loads.{Snapshot, index_assets}
use hypersdk_go.Asset.Metadata.{
  PerpAsset, SpotToken, SpotPair, Fetch, unknown_base, unknown_quote, append_perps, token_map,
  or_unknown, spot_asset, Pairs, with_alias, alias_of, add_pairs, add_aliases, fetch_base,
  snapshot_of,
}

-- The spot assets in order, each with its alias.
abbrev pub Aliased : Type 0
Aliased = List (String × Asset)

abbrev pub next_pair : SpotPair → Option SpotToken → Option SpotToken → Aliased → Aliased
next_pair pair (some token) (some quote) rest = (alias_of token quote, spot_asset pair token) ∷ rest
next_pair pair _ _ rest = []

unfoldable pub aliased_pairs : List (ℤ × SpotToken) → List SpotPair → Aliased
aliased_pairs tokens [] = []
aliased_pairs tokens (pair ∷ more) =
    next_pair pair (lookup pair.base_token tokens) (lookup pair.quote_token tokens)
      (aliased_pairs tokens more)

abbrev pub assets_of : Aliased → List Asset
assets_of [] = []
assets_of ((alias, a) ∷ more) = a ∷ assets_of more

-- The assets with this alias, where it is not their symbol.
unfoldable pub under_alias : String → Aliased → List Asset
under_alias name [] = []
under_alias name ((alias, a) ∷ more) =
    let rest = under_alias name more in
    if not (alias == a.symbol) then (if alias == name then a ∷ rest else rest) else rest

-- The loop over the aliases appends to each entry the assets of that alias.
add_aliases-lookup :
    (by_symbol aliases : List (String × List Asset)) (name : String)
    → Distinct aliases
    → or_nil (lookup name (add_aliases by_symbol aliases))
      ≡ or_nil (lookup name by_symbol) ++ or_nil (lookup name aliases)
unfolding add_aliases lookup
add_aliases-lookup by_symbol [] name d = sym (append-nil (or_nil (lookup name by_symbol)))
add_aliases-lookup by_symbol ((alias, assets) ∷ more) name d =
    add_aliases-lookup (insert alias (or_nil (lookup alias by_symbol) ++ assets) by_symbol) more
      name d.1
    ∙ elim (Bool-cases (alias == name)) [
      | inl same ↦
          rw
            (
              lookup-insert alias name (or_nil (lookup alias by_symbol) ++ assets) by_symbol,
              same,
              ← (string_eq.equals_iff alias name).0 same,
              d.0,
            )
            (append-nil (or_nil (lookup alias by_symbol) ++ assets))
      | inr other ↦
          rw (lookup-insert alias name (or_nil (lookup alias by_symbol) ++ assets) by_symbol, other)
            refl
    ]

-- One alias more.
with_alias-lookup :
    (alias name : String) (a : Asset) (m : List (String × List Asset)) (rest : Aliased)
    → or_nil (lookup name (with_alias alias a m)) ++ under_alias name rest
      ≡ or_nil (lookup name m) ++ under_alias name ((alias, a) ∷ rest)
unfolding under_alias
with_alias-lookup alias name a m rest = elim (Bool-cases (alias == a.symbol)) [
  | inl own ↦ rw own refl
  | inr differs ↦ elim (Bool-cases (alias == name)) [
    | inl same ↦
        rw
          (
            differs,
            lookup-insert alias name (or_nil (lookup alias m) ++ a ∷ []) m,
            same,
            (string_eq.equals_iff alias name).0 same,
          )
          (append_assoc (or_nil (lookup name m)) (a ∷ []) (under_alias name rest))
    | inr other ↦
        rw (differs, lookup-insert alias name (or_nil (lookup alias m) ++ a ∷ []) m, other) refl
  ]
]

with_alias-Distinct :
    (alias : String) (a : Asset) (m : List (String × List Asset))
    → Distinct m
    → Distinct (with_alias alias a m)
with_alias-Distinct alias a m d = elim (Bool-cases (alias == a.symbol)) [
  | inl own ↦ rw own d
  | inr differs ↦ rw differs (insert-Distinct alias (or_nil (lookup alias m) ++ a ∷ []) m d)
]

-- What the loop over the spot universe adds.
record IsExtended (so_far after : Pairs) (pairs : Aliased) : Type 0 where
  assets : after.assets ≡ so_far.assets ++ assets_of pairs
  aliases :
      (name : String)
      → or_nil (lookup name after.aliases)
        ≡ or_nil (lookup name so_far.aliases) ++ under_alias name pairs
  distinct : Distinct after.aliases

abbrev pairs_or : Pairs → Fetch Pairs → Pairs
pairs_or p (err e) = p
pairs_or p (ok q) = q

unchanged-IsExtended : (p : Pairs) → Distinct p.aliases → IsExtended p p []
unfolding under_alias
unchanged-IsExtended p d = record {
  assets = sym (append-nil p.assets);
  aliases = λ name. sym (append-nil (or_nil (lookup name p.aliases)));
  distinct = d;
}

abbrev with_pair : SpotPair → SpotToken → SpotToken → Pairs → Pairs
with_pair pair token quote p = record {
  assets = p.assets ++ spot_asset pair token ∷ [];
  aliases = with_alias (alias_of token quote) (spot_asset pair token) p.aliases;
}

pair-IsExtended :
    (so_far after : Pairs) (pair : SpotPair) (token quote : Option SpotToken) (rest : Aliased)
    (next : Pairs → Fetch Pairs)
    → Distinct so_far.aliases
    → ((p : Pairs) → Distinct p.aliases → next p ≡ ok after → IsExtended p after rest)
    → (or_unknown (unknown_base pair.name pair.base_token) token >>= λ t.
        or_unknown (unknown_quote pair.name pair.quote_token) quote >>= λ q.
        next (with_pair pair t q so_far))
      ≡ ok after
    → IsExtended so_far after (next_pair pair token quote rest)
pair-IsExtended so_far after pair none quote rest next d ih h = cc
pair-IsExtended so_far after pair (some t) none rest next d ih h = cc
pair-IsExtended so_far after pair (some t) (some q) rest next d ih h =
    let a = spot_asset pair t in
    let e =
      ih (with_pair pair t q so_far) (with_alias-Distinct (alias_of t q) a so_far.aliases d) h in
    record {
      assets = e.assets ∙ append_assoc so_far.assets (a ∷ []) (assets_of rest);
      aliases =
          λ name. e.aliases name ∙ with_alias-lookup (alias_of t q) name a so_far.aliases rest;
      distinct = e.distinct;
    }

add_pairs-IsExtended :
    (tokens : List (ℤ × SpotToken)) (so_far after : Pairs) (pairs : List SpotPair)
    → Distinct so_far.aliases
    → add_pairs tokens so_far pairs ≡ ok after
    → IsExtended so_far after (aliased_pairs tokens pairs)
unfolding add_pairs aliased_pairs
add_pairs-IsExtended tokens so_far after [] d h =
    rw (← ap (pairs_or so_far) h) (unchanged-IsExtended so_far d)
add_pairs-IsExtended tokens so_far after (pair ∷ more) d h =
    pair-IsExtended so_far after pair (lookup pair.base_token tokens)
      (lookup pair.quote_token tokens) (aliased_pairs tokens more) (λ p. add_pairs tokens p more) d
      (λ p e q. add_pairs-IsExtended tokens p after more e q) h

abbrev snapshot_or : Snapshot → Fetch Snapshot → Snapshot
snapshot_or s (err e) = s
snapshot_or s (ok t) = t

-- When the base fetch succeeds on two answers, the entry of a name in its index is the perpetual
-- and spot assets with this symbol, in order, and behind them the spot assets with another symbol
-- whose base and quote tokens have this name joined by a slash.
pub fetch_base-lookup :
    (universe : List PerpAsset) (tokens : List SpotToken) (pairs : List SpotPair) (s : Snapshot)
    (name : String)
    → fetch_base (ok universe) (ok (tokens, pairs)) ≡ ok s
    → or_nil (lookup name s.by_symbol)
      ≡ keep
          (λ a. a.symbol == name)
          (append_perps [] universe "" 0 0 perp
            ++ assets_of (aliased_pairs (token_map [] tokens) pairs))
        ++ under_alias name (aliased_pairs (token_map [] tokens) pairs)
unfolding fetch_base index_assets lookup
fetch_base-lookup universe tokens pairs s name h =
    let spots = aliased_pairs (token_map [] tokens) pairs in
    let begun : Pairs = record { assets = append_perps [] universe "" 0 0 perp; aliases = [] } in
    let made =
      bind-eq-ok (add_pairs (token_map [] tokens) begun pairs) (λ p. ok (snapshot_of p)) h in
    let p = made.0 in
    let e : IsExtended begun p spots =
      add_pairs-IsExtended (token_map [] tokens) begun p pairs tt made.1 in
    ap (λ found. or_nil (lookup name (snapshot_or s found).by_symbol)) (sym made.2)
    ∙ add_aliases-lookup (index_by (λ a. a.symbol) [] p.assets) p.aliases name e.distinct
    ∙ rw (index-lookup (λ a. a.symbol) p.assets name, e.assets, e.aliases name) refl
