-- ===== src/Asset/Metadata/Examples.antt =====
-- asset/meta_resolver.go: runs of the fetches.
use Prim.Native.String.{String}
use hypersdk_go.Prelude.Int.{ℤ, pos, negsuc, ◌+ℤ◌, wrap_64}
use hypersdk_go.Prelude.Maps.{lookup, insert}
use hypersdk_go.Prelude.Decimals.{show_int, show_nat}
use hypersdk_go.Prelude.{
  ℕ, ◌≡◌, refl, ok, err, none, some, List, [], ◌∷◌, ◌++◌, string_eq, ◌==◌, keep, All, arith,
}
use hypersdk_go.Asset.{Asset, perp, spot, hip3, index_by, or_nil}
use hypersdk_go.Asset.Loads.{Snapshot, index_assets}
use hypersdk_go.Asset.Metadata.{
  PerpAsset, SpotToken, SpotPair, OutcomeMarket, unavailable, unknown_quote, append_perps,
  token_map, add_pairs, add_aliases, fetch_base, fetch_dexes, fetch_hip3, append_outcomes,
  fetch_outcomes,
}
use hypersdk_go.Asset.Metadata.Aliases.{aliased_pairs, assets_of, under_alias, fetch_base-lookup}
use hypersdk_go.Asset.Metadata.Outcomes.{IsOutcome, append_outcomes-IsOutcome}

runs : Unit {0}
unfolding ◌+ℤ◌ wrap_64 lookup insert show_nat show_int index_by index_assets append_perps token_map
    add_pairs add_aliases fetch_base fetch_dexes fetch_hip3 append_outcomes fetch_outcomes
    aliased_pairs under_alias
runs = tt

abbrev market : String → PerpAsset
market name = record { name = name; sz_decimals = pos 4 }

abbrev tokens : List SpotToken
tokens =
    record { name = "USDC"; sz_decimals = pos 8; index = pos 0 }
    ∷ record { name = "PURR"; sz_decimals = pos 2; index = pos 1 }
    ∷ []

abbrev pair : String → ℕ → ℕ → ℕ → SpotPair
pair name base quote index = record {
  name = name;
  base_token = pos base;
  quote_token = pos quote;
  index = pos index;
}

abbrev listed : String → ℕ → String → ℕ → String → Asset
listed symbol id kind decimals dex = record {
  id = pos id;
  symbol = symbol;
  name = symbol;
  kind = kind;
  sz_decimals = pos decimals;
  dex = dex;
}

abbrev universe : List PerpAsset
universe = market "BTC" ∷ market "ETH" ∷ []

-- One pair has its readable name, and the other an internal one.
abbrev pairs : List SpotPair
pairs = pair "PURR/USDC" 1 0 0 ∷ pair "@107" 0 1 107 ∷ []

abbrev fetched : Snapshot
fetched = record {
  assets =
      listed "BTC" 0 perp 4 ""
      ∷ listed "ETH" 1 perp 4 ""
      ∷ listed "PURR/USDC" 10000 spot 2 ""
      ∷ listed "@107" 10107 spot 8 ""
      ∷ [];
  by_symbol =
      ("BTC", listed "BTC" 0 perp 4 "" ∷ [])
      ∷ ("ETH", listed "ETH" 1 perp 4 "" ∷ [])
      ∷ ("PURR/USDC", listed "PURR/USDC" 10000 spot 2 "" ∷ [])
      ∷ ("@107", listed "@107" 10107 spot 8 "" ∷ [])
      ∷ ("USDC/PURR", listed "@107" 10107 spot 8 "" ∷ [])
      ∷ [];
  by_id =
      (pos 0, listed "BTC" 0 perp 4 "" ∷ [])
      ∷ (pos 1, listed "ETH" 1 perp 4 "" ∷ [])
      ∷ (pos 10000, listed "PURR/USDC" 10000 spot 2 "" ∷ [])
      ∷ (pos 10107, listed "@107" 10107 spot 8 "" ∷ [])
      ∷ [];
}

base_fetched : fetch_base (ok universe) (ok (tokens, pairs)) ≡ ok fetched
unfolding runs
base_fetched = refl

no_token :
    fetch_base (ok universe) (ok (tokens, pair "@1" 0 7 1 ∷ [])) ≡ err (unknown_quote "@1" (pos 7))
unfolding runs
no_token = refl

-- The first DEX of the list is null, and one has no name.
hip3_fetched :
    fetch_hip3
      (ok (none ∷ some "" ∷ some "abc" ∷ []))
      (λ dex. ok (market "abc:X" ∷ market "abc:Y" ∷ []))
    ≡ ok (
        index_assets (listed "abc:X" 120000 hip3 4 "abc" ∷ listed "abc:Y" 120001 hip3 4 "abc" ∷ []))
unfolding runs
hip3_fetched = refl

hip3_failed :
    fetch_hip3 (ok (some "abc" ∷ [])) (λ dex. err (unavailable 503)) ≡ err (unavailable 503)
unfolding runs
hip3_failed = refl

abbrev outcomes : List OutcomeMarket
outcomes =
    record { encoding = pos 12; sides = 2 }
    ∷ record { encoding = pos 13; sides = 1 }
    ∷ record { encoding = negsuc 0; sides = 2 }
    ∷ []

abbrev assets_ids : List Asset → List (String × ℤ)
assets_ids [] = []
assets_ids (a ∷ more) = (a.symbol, a.id) ∷ assets_ids more

two_sides :
    assets_ids (append_outcomes [] outcomes)
    ≡ ("#120", pos 100000120) ∷ ("#121", pos 100000121) ∷ []
unfolding runs
two_sides = refl

fetch_base-lookup_example :
    or_nil (lookup "USDC/PURR" fetched.by_symbol)
    ≡ keep
        (λ a. a.symbol == "USDC/PURR")
        (append_perps [] universe "" 0 0 perp
          ++ assets_of (aliased_pairs (token_map [] tokens) pairs))
      ++ under_alias "USDC/PURR" (aliased_pairs (token_map [] tokens) pairs)
fetch_base-lookup_example = fetch_base-lookup universe tokens pairs fetched "USDC/PURR" base_fetched

append_outcomes-IsOutcome_example : All IsOutcome (append_outcomes [] outcomes)
append_outcomes-IsOutcome_example =
    append_outcomes-IsOutcome outcomes (omega arith, (omega arith, (tt, tt)))
