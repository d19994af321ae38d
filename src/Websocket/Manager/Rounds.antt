-- ===== src/Websocket/Manager/Rounds.antt =====
-- websocket/manager.go: `syncSubscriptions` as one round. `succeeds` says of each message whether
-- its write to the socket succeeds.
use hypersdk_go.Json.{Fields}
use hypersdk_go.Prelude.{ℕ, Bool, true, false, String, List, [], ◌∷◌, if◌then◌else◌}
use hypersdk_go.Websocket.Wires.{Wire}
use hypersdk_go.Websocket.Manager.{Active}
use hypersdk_go.Websocket.Manager.Sync.{
  Sync, idle, subscribing, unsubscribing, joining, Connection, at, with_generation, take_snapshot,
  check_active, finish_join, commit_unsubscribe, start_subscribe, commit_subscribe, write_admitted,
}

abbrev pub keys_of : List (String × Active) → List String
keys_of [] = []
keys_of ((key, a) ∷ more) = key ∷ keys_of more

-- A loop over identities, up to the first failed write.
unfoldable pub turns :
    (String → Connection → Bool × Connection) → List String → Connection → Bool × Connection
turns turn [] c = (true, c)
turns turn (identity ∷ more) c =
    let first = turn identity c in
    let rest = turns turn more first.1 in if first.0 then rest else first

module _ (marshal : Fields → String) (succeeds : Wire → Bool) (deadline : ℕ) where
  abbrev pub write_unsubscribe : String → Wire → Connection → Bool × Connection
  write_unsubscribe identity wire c =
      if write_admitted marshal identity false wire c.generation.registry
      then if succeeds wire
        then (
          true,
          at idle (with_generation (commit_unsubscribe identity wire deadline c.generation) c),
        )
        else (false, at idle c)
      else (true, at idle c)

  abbrev pub finish_active : Sync → Connection → Bool × Connection
  finish_active (joining identity members) c =
      (true, at idle (with_generation (finish_join identity members c.generation) c))
  finish_active (unsubscribing identity wire) c = write_unsubscribe identity wire c
  finish_active _ c = (true, c)

  abbrev pub write_subscribe : String → Active → Connection → Bool × Connection
  write_subscribe identity group c =
      if write_admitted marshal identity true group.wire c.generation.registry
      then if succeeds group.wire
        then (
          true,
          at idle (with_generation (commit_subscribe identity group deadline c.generation) c),
        )
        else (false, at idle c)
      else (true, at idle c)

  abbrev pub finish_subscribe : Sync → Connection → Bool × Connection
  finish_subscribe (subscribing identity group) c = write_subscribe identity group c
  finish_subscribe _ c = (true, c)

  abbrev pub active_turn : String → Connection → Bool × Connection
  active_turn identity c =
      let checked = (check_active identity c).1 in finish_active checked.sync checked

  abbrev pub group_turn : String → Connection → Bool × Connection
  group_turn identity c =
      let begun = (start_subscribe identity c).1 in finish_subscribe begun.sync begun

  -- `syncSubscriptions`: its answer, and the connection.
  unfoldable pub sync_subscriptions : Connection → Bool × Connection
  sync_subscriptions c =
      let seen = take_snapshot marshal c in
      let first = turns active_turn (keys_of seen.generation.subscribed) seen in
      let second = turns group_turn (keys_of seen.current) first.1 in
      if first.0 then second else first
