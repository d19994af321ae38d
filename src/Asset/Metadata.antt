-- ===== src/Asset/Metadata.antt =====
-- asset/meta_resolver.go: the assets and the index of each fetch. The answers of the info client
-- are parameters. Ids that stand on a place in a list do not wrap, since a list is far shorter than
-- 2^63; numbers of the exchange wrap as an int64 does.
pub mod Aliases
pub mod Outcomes
mod Examples
use Prim.Native.String.{String, char_at, ◌++◌ as ◌++ₛ◌}
use hypersdk_go.Prelude.Int.{ℤ, pos, negsuc, ◌+ℤ◌, wrap_64}
use hypersdk_go.Prelude.Maps.{lookup, insert}
use hypersdk_go.Prelude.Decimals.{show_int}
use hypersdk_go.Prelude.{
  ℕ, suc, ◌+◌, ◌*◌, Bool, true, false, not, Option, none, some, List, [], ◌∷◌, ◌++◌, string_eq,
  nat_eq, ◌==◌, if◌then◌else◌, Result, ok, err, ◌>>=◌,
}
use hypersdk_go.Asset.{Asset, perp, spot, hip3, outcome, ResolveError, int_eq, or_nil}
use hypersdk_go.Asset.Loads.{Snapshot, index_assets}

-- `info.PerpAsset`, in the fields that are read.
pub record PerpAsset : Type 0 where
  pub name : String
  pub sz_decimals : ℤ

-- `info.SpotToken`
pub record SpotToken : Type 0 where
  pub name : String
  pub sz_decimals : ℤ
  pub index : ℤ

-- `info.SpotPair`
pub record SpotPair : Type 0 where
  pub name : String
  pub base_token : ℤ
  pub quote_token : ℤ
  pub index : ℤ

-- `info.Outcome`; of its sides the number is read.
pub record OutcomeMarket : Type 0 where
  pub encoding : ℤ
  pub sides : ℕ

pub data FetchError : Type 0 where
  unavailable : ℕ → FetchError
  unknown_base unknown_quote : String → ℤ → FetchError

abbrev pub Fetch : Type 0 → Type 0
Fetch A = Result FetchError A

-- `appendPerps`, from a place of the universe on.
unfoldable pub append_perps : List Asset → List PerpAsset → String → ℕ → ℕ → String → List Asset
append_perps assets [] dex offset index kind = assets
append_perps assets (p ∷ more) dex offset index kind =
    append_perps
      (assets
        ++ record {
          id = pos (offset + index);
          symbol = p.name;
          name = p.name;
          kind = kind;
          sz_decimals = p.sz_decimals;
          dex = dex;
        }
          ∷ [])
      more dex offset (suc index) kind

-- The tokens by their index.
unfoldable pub token_map : List (ℤ × SpotToken) → List SpotToken → List (ℤ × SpotToken)
token_map m [] = m
token_map m (t ∷ more) = token_map (insert t.index t m) more

abbrev pub or_unknown : FetchError → Option SpotToken → Fetch SpotToken
or_unknown e none = err e
or_unknown e (some t) = ok t

abbrev pub spot_asset : SpotPair → SpotToken → Asset
spot_asset pair token = record {
  id = wrap_64 (pos 10000 +ℤ pair.index);
  symbol = pair.name;
  name = pair.name;
  kind = spot;
  sz_decimals = token.sz_decimals;
  dex = "";
}

-- The assets so far, and the alias of each.
pub record Pairs : Type 0 where
  pub assets : List Asset
  pub aliases : List (String × List Asset)

abbrev pub with_alias : String → Asset → List (String × List Asset) → List (String × List Asset)
with_alias name a m =
    if not (name == a.symbol) then insert name (or_nil (lookup name m) ++ a ∷ []) m else m

abbrev pub alias_of : SpotToken → SpotToken → String
alias_of token quote = token.name ++ₛ "/" ++ₛ quote.name

-- The loop over the spot universe.
unfoldable pub add_pairs : List (ℤ × SpotToken) → Pairs → List SpotPair → Fetch Pairs
add_pairs tokens so_far [] = ok so_far
add_pairs tokens so_far (pair ∷ more) =
    or_unknown (unknown_base pair.name pair.base_token) (lookup pair.base_token tokens) >>= λ token.
    or_unknown (unknown_quote pair.name pair.quote_token) (lookup pair.quote_token tokens)
    >>= λ quote.
        add_pairs tokens
          (record {
            assets = so_far.assets ++ spot_asset pair token ∷ [];
            aliases = with_alias (alias_of token quote) (spot_asset pair token) so_far.aliases;
          })
          more

-- The loop over the aliases.
unfoldable pub add_aliases :
    List (String × List Asset) → List (String × List Asset) → List (String × List Asset)
add_aliases by_symbol [] = by_symbol
add_aliases by_symbol ((name, assets) ∷ more) =
    add_aliases (insert name (or_nil (lookup name by_symbol) ++ assets) by_symbol) more

abbrev pub snapshot_of : Pairs → Snapshot
snapshot_of p =
    let s = index_assets p.assets in record s { by_symbol = add_aliases s.by_symbol p.aliases }

-- `fetchBase`
unfoldable pub fetch_base :
    Fetch (List PerpAsset) → Fetch (List SpotToken × List SpotPair) → Fetch Snapshot
fetch_base base_meta spot_meta = base_meta >>= λ universe. spot_meta >>= λ meta.
    add_pairs (token_map [] meta.0)
      (record { assets = append_perps [] universe "" 0 0 perp; aliases = [] }) meta.1
    >>= λ pairs. ok (snapshot_of pairs)

-- The loop over the DEXes, from an index on; a DEX is `none` where the list holds null.
unfoldable pub fetch_dexes :
    (String → Fetch (List PerpAsset)) → List Asset → ℕ → List (Option String) → Fetch (List Asset)
fetch_dexes meta assets index [] = ok assets
fetch_dexes meta assets index (none ∷ more) = fetch_dexes meta assets (suc index) more
fetch_dexes meta assets index (some dex ∷ more) =
    if dex == ""
    then fetch_dexes meta assets (suc index) more
    else meta dex >>= λ universe.
        fetch_dexes meta (append_perps assets universe dex (100000 + index * 10000) 0 hip3)
          (suc index) more

-- `fetchHIP3`
unfoldable pub fetch_hip3 :
    Fetch (List (Option String)) → (String → Fetch (List PerpAsset)) → Fetch Snapshot
fetch_hip3 perp_dexes meta =
    perp_dexes >>= λ dexes. fetch_dexes meta [] 0 dexes >>= λ assets. ok (index_assets assets)

abbrev pub side_asset : ℤ → Asset
side_asset encoding = record {
  id = wrap_64 (pos 100000000 +ℤ encoding);
  symbol = String.◌∷◌ (char_at "#" 0) (show_int encoding);
  name = String.◌∷◌ (char_at "+" 0) (show_int encoding);
  kind = outcome;
  sz_decimals = pos 0;
  dex = "";
}

-- The assets of a market with two sides and no negative number.
abbrev pub sides_of : ℤ → Bool → List Asset
sides_of (pos n) true =
    side_asset (wrap_64 (pos (n * 10))) ∷ side_asset (wrap_64 (pos (n * 10 + 1))) ∷ []
sides_of _ _ = []

-- `appendOutcomes`
unfoldable pub append_outcomes : List Asset → List OutcomeMarket → List Asset
append_outcomes assets [] = assets
append_outcomes assets (o ∷ more) =
    append_outcomes (assets ++ sides_of o.encoding (o.sides == 2)) more

-- `fetchOutcomes`
unfoldable pub fetch_outcomes : Fetch (List OutcomeMarket) → Fetch Snapshot
fetch_outcomes outcome_meta =
    outcome_meta >>= λ markets. ok (index_assets (append_outcomes [] markets))
