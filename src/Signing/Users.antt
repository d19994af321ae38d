-- ===== src/Signing/Users.antt =====
-- The user-signed actions (signing/user_action.go, signing/advanced_actions.go and
-- signing/account_management_actions.go): the typed data that is signed and the wire form that is
-- posted. Actions has the actions and their checks, Typed and Posted the two forms. An account's
-- address, its test for zero and its checksummed text are go-ethereum's, and parameters.
pub mod Actions
pub mod Typed
pub mod Posted
pub mod Covers
use Prim.Native.String.{char_at, ◌++◌ as ◌++ₛ◌}
use hypersdk_go.Json.{Json, Fields, boolean, number, text, done, field}
use hypersdk_go.Prelude.Int.{pos}
use hypersdk_go.Prelude.{
  ℕ, ◌/◌, ◌%◌, Bool, not, ◌||◌, Option, none, some, String, string_eq, nat_eq, ◌==◌, List, [], ◌∷◌,
  if◌then◌else◌, Result, ok, err, ◌>>=◌,
}
use hypersdk_go.Signing.Deploy.Checks.{Check, require}

-- apitypes.TypedData, less the domain, which is the same for every user-signed action: the primary
-- type, its fields, each a name and a type, and the message.
pub record TypedData : Type 0 where
  pub primary_type : String
  pub fields : List (String × String)
  pub message : Fields

-- `userActionNetwork`
unfoldable pub user_action_network : Bool → String
user_action_network is_mainnet = if is_mainnet then "Mainnet" else "Testnet"

-- `hex.EncodeToString` after `0x`.
abbrev hex_digits : List ℕ → String
hex_digits [] = ""
hex_digits (b ∷ bs) =
    String.◌∷◌ (char_at "0123456789abcdef" (b / 16))
      (String.◌∷◌ (char_at "0123456789abcdef" (b % 16)) (hex_digits bs))

unfoldable pub hex_text : List ℕ → String
hex_text bytes = "0x" ++ₛ hex_digits bytes

-- A name that is missing is signed as the empty text.
abbrev pub name_text : Option String → String
name_text none = ""
name_text (some name) = name

-- What every wire form begins with.
abbrev pub wire_fields : String → Bool → Fields → Fields
wire_fields kind is_mainnet rest = field "type" (text kind) (
    field "hyperliquidChain" (text (user_action_network is_mainnet))
      (field "signatureChainId" (text "0x66eee") rest))

-- And what every typed message begins with.
abbrev pub typed : String → Bool → List (String × String) → Fields → TypedData
typed kind is_mainnet names values = record {
  primary_type = "HyperliquidTransaction:" ++ₛ kind;
  fields = ("hyperliquidChain", "string") ∷ names;
  message = field "hyperliquidChain" (text (user_action_network is_mainnet)) values;
}
