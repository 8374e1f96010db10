-- ===== src/Runtime.antt =====
-- app/runtime.py: the turns of the runtime that change the rows of the rooms, one after another. What
-- a synchronisation has read from the property management system comes with its turn, as does the
-- time of a turn.
pub mod Turns
use clock_ha_orchestrator.Prelude.{ℕ, Bool, true, false, Option, none, some, List, [], ◌∷◌, String}
use clock_ha_orchestrator.Prelude.Results.{Result, ok, err}
use clock_ha_orchestrator.Domain.Temperature.{Float}
use clock_ha_orchestrator.Domain.Models.{RoomRegistry, HotelPolicy}
use clock_ha_orchestrator.Policy.Control.Service.{CommandProcessingResult, apply_mqtt_command}
use clock_ha_orchestrator.Persistence.Rows.{Payload}
use clock_ha_orchestrator.Persistence.Session.{Database, StoreError, stored}
use clock_ha_orchestrator.Clock.Rooms.{SemanticState}
use clock_ha_orchestrator.Clock.DbSync.{
  SyncError, SyncRunResult, PersistedSyncResult, apply_sync_result, evaluate_all_rooms,
  evaluate_room_keys,
}

-- The input of a turn: a message on a command topic, a tick of the policy loop, or a result that was
-- read for the synchronisation; each with its correlation id.
pub data Turn : Type 0 where
  command : (room_key field : String) (payload : Option (List ℕ)) (now correlation_id : ℕ) → Turn
  policy_tick : (now correlation_id : ℕ) → Turn
  synchronised : (result : SyncRunResult) (correlation_id : ℕ) → Turn

-- What a turn can fail with: an error of the synchronisation, or the engine's refusal of the rows.
pub data TurnError : Type 0 where
  sync_failed : SyncError → TurnError
  store_failed : StoreError → TurnError

abbrev pub after_store :
    Database → Result StoreError (Database × PersistedSyncResult) → Database × Option TurnError
after_store db (ok r) = (r.0, none)
after_store db (err e) = (db, some (store_failed e))

-- The end of a transaction of the synchronisation's service: the database after it, and the error
-- that left it, which rolls it back. The engine may refuse the rows at a flush or at the end.
abbrev pub commit :
    (Database → Database → Bool)
    → Database
    → Result SyncError (Database × PersistedSyncResult)
    → Database × Option TurnError
commit takes db (ok r) = after_store db (stored takes db r)
commit takes db (err e) = (db, some (sync_failed e))

module _ (takes : Database → Database → Bool) (uuid : ℕ → ℕ) (parse_float : List ℕ → Option Float)
    (serialize : Payload → String) (hash : SemanticState → String) (prefix : String)
    (registry : RoomRegistry) (policy : HotelPolicy) (cursor_source : String) where
  -- The second transaction of a command, which evaluates the room.
  unfoldable pub evaluate_accepted :
      ℕ → Database × CommandProcessingResult → Bool → Option String → Database × Option TurnError
  unfolding evaluate_room_keys
  evaluate_accepted now r true (some room_key) = commit takes r.0 (
      evaluate_room_keys uuid serialize hash prefix registry policy cursor_source (room_key ∷ [])
        now r.1.correlation_id r.0)
  evaluate_accepted now r true none = (r.0, none)
  evaluate_accepted now r false _ = (r.0, none)

  -- What follows the transaction of a command.
  unfoldable pub after_command :
      ℕ
      → Database
      → Result StoreError (Database × CommandProcessingResult)
      → Database × Option TurnError
  unfolding evaluate_accepted
  after_command now db (ok r) = evaluate_accepted now r r.1.accepted r.1.room_key
  after_command now db (err e) = (db, some (store_failed e))

  -- The error is what the runtime notes in `worker_errors`.
  unfoldable pub handle_control_message :
      String → String → Option (List ℕ) → ℕ → ℕ → Database → Database × Option TurnError
  unfolding apply_mqtt_command after_command
  handle_control_message room_key field payload now correlation_id db = after_command now db (
      apply_mqtt_command takes uuid parse_float serialize prefix registry policy room_key field
        payload now correlation_id db)

  unfoldable pub run_policy_once : ℕ → ℕ → Database → Database × Option TurnError
  unfolding evaluate_all_rooms
  run_policy_once now correlation_id db = commit takes db (
      evaluate_all_rooms uuid serialize hash prefix registry policy cursor_source now correlation_id
        db)

  -- The part of `run_sync_once` that follows the poll.
  unfoldable pub persist_sync : SyncRunResult → ℕ → Database → Database × Option TurnError
  unfolding apply_sync_result
  persist_sync result correlation_id db = commit takes db (
      apply_sync_result uuid serialize hash prefix registry policy cursor_source result
        correlation_id db)

  unfoldable pub take_turn : Turn → Database → Database × Option TurnError
  unfolding handle_control_message run_policy_once persist_sync
  take_turn (command room_key field payload now correlation_id) db =
      handle_control_message room_key field payload now correlation_id db
  take_turn (policy_tick now correlation_id) db = run_policy_once now correlation_id db
  take_turn (synchronised result correlation_id) db = persist_sync result correlation_id db

  -- Any order of turns, with the errors that they leave.
  unfoldable pub run_turns : List Turn → Database → Database × List (Option TurnError)
  unfolding take_turn
  run_turns [] db = (db, [])
  run_turns (t ∷ ts) db =
      let r = take_turn t db in let rest = run_turns ts r.0 in (rest.0, r.1 ∷ rest.1)
