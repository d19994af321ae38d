-- ===== src/Asset/Index.antt =====
-- asset/resolver.go and the index of asset/meta_resolver.go: a lookup gives the assets with the
-- key.
use hypersdk_go.Prelude.Maps.{lookup, lookup-insert}
use hypersdk_go.Prelude.{
  ◌≡◌, ◌≢◌, refl, sym, ap, ◌∙◌, Bool, ◌&&◌, Option, none, some, List, [], ◌∷◌, ◌++◌, append_assoc,
  append-nil, Equality, string_eq, nat_eq, ◌==◌, if◌then◌else◌, Result, ok, err, keep, find_by,
  Bool-cases, inl, inr,
}
use Prim.Native.String.{String}
use hypersdk_go.Asset.{
  Asset, of_symbol, MarketRef, ResolveError, not_found, ambiguous_symbol, int_eq, or_nil, add_asset,
  index_by, new_static_resolver, unique, of_symbol, static_resolve, first_market,
}

append_one-not-nil {ℓ} : {A : Type ℓ} → (xs : List A) (x : A) → xs ++ x ∷ [] ≢ []
append_one-not-nil [] x h = cc
append_one-not-nil (y ∷ xs) x h = cc

module _ {ℓ} {K : Type ℓ} ⦃e : Equality K⦄ (key : Asset → K) where
  abbrev pub has_key : K → Asset → Bool
  has_key k a = key a == k

  add_asset-lookup :
      (m : List (K × List Asset)) (a : Asset) (k : K)
      → lookup k (add_asset key m a)
        ≡ (if key a == k then some (or_nil (lookup (key a) m) ++ a ∷ []) else lookup k m)
  add_asset-lookup m a k = lookup-insert (key a) k (or_nil (lookup (key a) m) ++ a ∷ []) m

  -- The loop adds to each entry the assets with its key, in order.
  index_by-lookup :
      (m : List (K × List Asset)) (assets : List Asset) (k : K)
      → or_nil (lookup k (index_by key m assets)) ≡ or_nil (lookup k m) ++ keep (has_key k) assets
  unfolding index_by
  index_by-lookup m [] k = sym (append-nil (or_nil (lookup k m)))
  index_by-lookup m (a ∷ rest) k =
      index_by-lookup (add_asset key m a) rest k ∙ elim (Bool-cases (key a == k)) [
        | inl same ↦
            rw
              (
                add_asset-lookup m a k,
                same,
                (e.equals_iff (key a) k).0 same,
                append_assoc (or_nil (lookup k m)) (a ∷ []) (keep (has_key k) rest),
              )
              refl
        | inr other ↦ rw (add_asset-lookup m a k, other) refl
      ]

  -- No entry is empty.
  abbrev Filled : List (K × List Asset) → Type ℓ
  Filled m = (k : K) → lookup k m ≢ some []

  add_asset-Filled : (m : List (K × List Asset)) (a : Asset) → Filled m → Filled (add_asset key m a)
  add_asset-Filled m a f k q = elim (Bool-cases (key a == k)) [
    | inl same ↦
        append_one-not-nil (or_nil (lookup (key a) m)) a
          (ap or_nil (rw (add_asset-lookup m a k, same) at q))
    | inr other ↦ f k (rw (add_asset-lookup m a k, other) at q)
  ]

  index_by-Filled :
      (m : List (K × List Asset)) (assets : List Asset) → Filled m → Filled (index_by key m assets)
  unfolding index_by
  index_by-Filled m [] f = f
  index_by-Filled m (a ∷ rest) f = index_by-Filled (add_asset key m a) rest (add_asset-Filled m a f)

  pub index-lookup :
      (assets : List Asset) (k : K)
      → or_nil (lookup k (index_by key [] assets)) ≡ keep (has_key k) assets
  unfolding lookup
  index-lookup assets k = index_by-lookup [] assets k

  index-Filled : (assets : List Asset) → Filled (index_by key [] assets)
  unfolding lookup
  index-Filled assets = index_by-Filled [] assets (λ k. cc)

-- With no entry empty, a missing entry and an empty list are one case.
of_symbol-unique :
    (symbol : String) (found : Option (List Asset))
    → found ≢ some []
    → of_symbol symbol found ≡ unique (not_found symbol) (ambiguous_symbol symbol) (or_nil found)
of_symbol-unique symbol none f = refl
of_symbol-unique symbol (some []) f = absurd (f refl)
of_symbol-unique symbol (some (a ∷ [])) f = refl
of_symbol-unique symbol (some (a ∷ b ∷ more)) f = refl

-- The scan over the assets of a symbol is the search of the whole list for the market.
abbrev pub is_market : MarketRef → Asset → Bool
is_market ref a = a.kind == ref.kind && a.dex == ref.dex

abbrev pub or_missing : MarketRef → Option Asset → Result ResolveError Asset
or_missing ref none = err (not_found ref.symbol)
or_missing ref (some a) = ok a

pub first_market-find :
    (ref : MarketRef) (assets : List Asset)
    → first_market ref assets ≡ or_missing ref (find_by (is_market ref) assets)
unfolding first_market
first_market-find ref [] = refl
first_market-find ref (a ∷ rest) = elim (Bool-cases (is_market ref a)) [
  | inl found ↦ rw found refl
  | inr other ↦ rw (other, first_market-find ref rest) refl
]

pub find-keep :
    (p q : Asset → Bool) (assets : List Asset)
    → find_by q (keep p assets) ≡ find_by (λ a. p a && q a) assets
find-keep p q [] = refl
find-keep p q (a ∷ rest) = elim (Bool-cases (p a)) [
  | inl passes ↦ rw (passes, find-keep p q rest) refl
  | inr fails ↦ rw (fails, find-keep p q rest) refl
]

-- A live context and any symbol: the static resolver gives the only asset of its list with that
-- symbol, and it refuses the symbol, by two different errors, when no asset or several have it.
pub resolve-unique :
    (assets : List Asset) (symbol : String)
    → static_resolve (new_static_resolver assets) none symbol
      ≡ unique (not_found symbol) (ambiguous_symbol symbol) (keep (λ a. a.symbol == symbol) assets)
unfolding static_resolve new_static_resolver
resolve-unique assets symbol =
    of_symbol-unique symbol (lookup symbol (index_by (λ a. a.symbol) [] assets))
      (index-Filled (λ a. a.symbol) assets symbol)
    ∙ ap (unique (not_found symbol) (ambiguous_symbol symbol))
        (index-lookup (λ a. a.symbol) assets symbol)
