-- ===== src/Websocket/Wires/Examples.antt =====
-- websocket/wire_identity.go: subscriptions and acknowledgements.
use hypersdk_go.Prelude.Int.{pos}
use hypersdk_go.Prelude.Texts.{lower_char, to_lower}
use hypersdk_go.Json.{Fields, boolean, number, text, done, field, get_field}
use hypersdk_go.Prelude.{◌≡◌, refl, true, false, none, some, string_eq}
use hypersdk_go.Websocket.Wires.{
  ignored_field, default_field, canonical_value, canonical_fields, kind_of, canonical_wire,
  same_value, field_equal, ack_compatible, field_score, score_fields, match_score,
}
use hypersdk_go.Websocket.Wires.Canonical.{canonical_wire-twice}
use hypersdk_go.Websocket.Wires.Echo.{full_score, match_score-echo}

runs : Unit {0}
unfolding lower_char to_lower get_field ignored_field default_field canonical_value canonical_fields
    canonical_wire same_value field_equal ack_compatible field_score score_fields match_score
runs = tt

abbrev fills : Fields
fills =
    field "type" (text "userFills")
      (field "user" (text "0xAB") (field "aggregateByTime" (boolean false) done))

abbrev spot_state : Fields
spot_state =
    field "type" (text "spotState")
      (field "user" (text "0xab") (field "isPortfolioMargin" (boolean true) done))

-- The default is dropped and the address is in lower case.
canonical_fills : canonical_wire (record { method = "subscribe"; subscription = fills }) ≡ record {
  method = "subscribe";
  subscription = field "type" (text "userFills") (field "user" (text "0xab") done);
}
unfolding runs
canonical_fills = refl

lower_ack :
    match_score fills (field "type" (text "userFills") (field "user" (text "0xab") done)) ≡ some 2
unfolding runs
lower_ack = refl

other_user :
    match_score fills (field "type" (text "userFills") (field "user" (text "0xac") done)) ≡ none
unfolding runs
other_user = refl

-- The server answers a spot state with another field.
spot_ack :
    match_score spot_state (
      field "type"
        (text "spotState")
        (field "user" (text "0xab") (field "ignorePortfolioMargin" (boolean false) done)))
    ≡ some 3
unfolding runs
spot_ack = refl

numbers :
    match_score
      (field "type" (text "l2Book") (field "nSigFigs" (number (pos 5)) done))
      (field "type" (text "l2Book") done)
    ≡ none
unfolding runs
numbers = refl

canonical_wire-twice_example :
    canonical_wire (canonical_wire (record { method = "subscribe"; subscription = fills }))
    ≡ canonical_wire (record { method = "subscribe"; subscription = fills })
canonical_wire-twice_example =
    canonical_wire-twice (record { method = "subscribe"; subscription = fills })

absent :
    (get_field "type" (field "user" (text "0xAB") (field "aggregateByTime" (boolean false) done))
      ≡ none)
    × (get_field "user" (field "aggregateByTime" (boolean false) done) ≡ none)
    × (get_field "aggregateByTime" done ≡ none)
unfolding runs
absent = (refl, refl, refl)

match_score-echo_example :
    (match_score fills fills ≡ some (full_score (kind_of fills) fills))
    × (match_score (canonical_fields (kind_of fills) fills) fills
        ≡ some (full_score (kind_of fills) (canonical_fields (kind_of fills) fills)))
match_score-echo_example =
    match_score-echo fills (absent.0, (absent.1, (absent.2, tt))) (refl, (refl, (refl, tt)))
