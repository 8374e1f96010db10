-- ===== src/Policy/Control/Service.antt =====
-- app/policy/control.py: `RoomControlCommandService`, one transaction for each MQTT command, and the
-- topics of app/mqtt/topics.py that it writes to. The text of a payload is what `serialize` makes of
-- it, and the prefix of the topics is stripped of its slashes already.
pub mod Laws
pub mod Outcome
pub mod Registered
pub mod Transactions
use clock_ha_orchestrator.Prelude.{
  ℕ, Bool, true, false, not, ◌&&◌, Option, none, some, List, [], ◌∷◌, String, ◌<>◌, str_eq, ◌==◌,
  if◌then◌else◌,
}
use clock_ha_orchestrator.Prelude.Results.{Result, ok, err}
use clock_ha_orchestrator.Domain.Enums.{is_manual_override}
use clock_ha_orchestrator.Domain.Temperature.{Float}
use clock_ha_orchestrator.Domain.Models.{HotelPolicy, Room, RoomRegistry}
use clock_ha_orchestrator.Outbox.Store.{OutboxEvent}
use clock_ha_orchestrator.Policy.Control.Text.{ControlError}
use clock_ha_orchestrator.Policy.Control.Rows.{
  latest_override_row, latest_room_state, override_row_is_active, default_control_state_payload,
  control_state_payload_from_override,
}
use clock_ha_orchestrator.Policy.Control.Draft.{build_override_row}
use clock_ha_orchestrator.Persistence.Rows.{
  PropertyRow, RoomRow, RoomStateRow, OverrideRow, AuditType, AuditEvent, ControlState, Payload,
  control_state, outbox_event,
}
use clock_ha_orchestrator.Persistence.Session.{
  Database, StoreError, stored, find, update_where, add_audit, add_override, add_event, add_room,
  add_property,
}

abbrev pub room_control_state : String → String → String
room_control_state prefix room_key = prefix <> "/rooms/" <> room_key <> "/control/state"

-- `room_registry.by_key().get(key)`, where a later room of the same key replaces an earlier one.
abbrev pub registry_room : String → List Room → Option Room
registry_room key [] = none
registry_room key (r ∷ rs) = elim (registry_room key rs) [
  | none ↦ if str_eq r.key key then some r else none
  | some later ↦ some later
]

abbrev pub is_property : String → PropertyRow → Bool
is_property key row = str_eq row.key key

abbrev pub is_room : ℕ → String → RoomRow → Bool
is_room property_id key row = (row.property_id == property_id) && str_eq row.key key

-- The update of a room's columns.
abbrev pub refresh_room : Room → RoomRow → RoomRow
refresh_room room row = record row {
  name = room.name;
  entrance_key = room.entrance_key;
  clock_room_id = room.clock_room_id;
  enabled = room.enabled;
}

abbrev pub new_room : ℕ → Room → ℕ → RoomRow
new_room property_id room id = record {
  id = id;
  property_id = property_id;
  key = room.key;
  name = room.name;
  entrance_key = room.entrance_key;
  clock_room_id = room.clock_room_id;
  enabled = room.enabled;
}

module _ (uuid : ℕ → ℕ) where
  abbrev pub property_or_new : String → Option PropertyRow → Database → Database × ℕ
  property_or_new key (some row) db = (db, row.id)
  property_or_new key none db =
      (add_property uuid (λ id. record { id = id; key = key }) db, uuid db.drawn)

  unfoldable pub ensure_property : String → Database → Database × ℕ
  ensure_property key db = property_or_new key (find (is_property key) db.properties) db

  abbrev pub room_or_new : ℕ → Room → Option RoomRow → Database → Database × ℕ
  room_or_new property_id room (some row) db = (
    record db { rooms = update_where (is_room property_id room.key) (refresh_room room) db.rooms },
    row.id,
  )
  room_or_new property_id room none db =
      (add_room uuid (new_room property_id room) db, uuid db.drawn)

  unfoldable pub ensure_room : ℕ → Room → Database → Database × ℕ
  ensure_room property_id room db =
      room_or_new property_id room (find (is_room property_id room.key) db.rooms) db

pub data CommandError : Type 0 where
  unknown_room : CommandError
  rejected : ControlError → CommandError

pub record CommandProcessingResult : Type 0 where
  pub accepted : Bool
  pub room_key : Option String
  pub correlation_id : ℕ
  pub error : Option CommandError

abbrev pub command_audit : AuditType → ℕ → Option ℕ → ℕ → ℕ → AuditEvent
command_audit event_type property_id room_id now correlation_id = record {
  property_id = property_id;
  room_id = room_id;
  booking_id = none;
  event_type = event_type;
  created_at = now;
  correlation_id = correlation_id;
}

abbrev pub audit_rejected : ℕ → Option ℕ → ℕ → ℕ → Database → Database
audit_rejected property_id room_id now correlation_id db =
    add_audit (command_audit AuditType.command_rejected property_id room_id now correlation_id) db

module _ (uuid : ℕ → ℕ) (parse_float : List ℕ → Option Float) (serialize : Payload → String)
    (prefix : String) (registry : RoomRegistry) (policy : HotelPolicy) where
  -- The event that publishes the control state of an override.
  unfoldable pub control_event : String → OverrideRow → ℕ → ℕ → OutboxEvent
  unfolding control_state_payload_from_override
  control_event room_key row now id =
      let payload = control_state_payload_from_override room_key (some row) now none in
      outbox_event (room_control_state prefix room_key) (serialize (control_state payload)) now id

  -- The rows of an accepted command.
  unfoldable pub accept_command : ℕ → ℕ → String → (ℕ → OverrideRow) → ℕ → ℕ → Database → Database
  unfolding control_event
  accept_command property_id room_id room_key make now correlation_id db =
      add_audit
        (command_audit AuditType.command_accepted property_id (some room_id) now correlation_id)
        (add_event uuid (control_event room_key (make (uuid db.drawn)) now)
          (add_override uuid make db))

  -- The end of a command, by what building its row gave.
  unfoldable pub settle_command :
      ℕ
      → ℕ
      → String
      → ℕ
      → ℕ
      → Result ControlError (ℕ → OverrideRow)
      → Database
      → Database × CommandProcessingResult
  unfolding accept_command
  settle_command property_id room_id room_key now correlation_id (err e) db = (
    audit_rejected property_id (some room_id) now correlation_id db,
    record {
      accepted = false;
      room_key = some room_key;
      correlation_id = correlation_id;
      error = some (rejected e);
    },
  )
  settle_command property_id room_id room_key now correlation_id (ok make) db = (
    accept_command property_id room_id room_key make now correlation_id db,
    record {
      accepted = true;
      room_key = some room_key;
      correlation_id = correlation_id;
      error = none;
    },
  )

  -- The command of a room of the registry, or of none.
  unfoldable pub apply_to_room :
      ℕ
      → Option Room
      → String
      → Option (List ℕ)
      → ℕ
      → ℕ
      → Database
      → Database × CommandProcessingResult
  unfolding build_override_row ensure_room settle_command
  apply_to_room property_id none field payload now correlation_id db = (
    audit_rejected property_id none now correlation_id db,
    record {
      accepted = false;
      room_key = none;
      correlation_id = correlation_id;
      error = some unknown_room;
    },
  )
  apply_to_room property_id (some room) field payload now correlation_id db =
      let row = ensure_room uuid property_id room db in
      settle_command property_id row.1 room.key now correlation_id
        (build_override_row parse_float policy row.1 field payload now correlation_id row.0) row.0

  -- What the statements of a command make of the rows.
  unfoldable pub command_rows :
      String → String → Option (List ℕ) → ℕ → ℕ → Database → Database × CommandProcessingResult
  unfolding ensure_property apply_to_room
  command_rows room_key field payload now correlation_id db =
      let property = ensure_property uuid registry.property_key db in
      apply_to_room property.1 (registry_room room_key registry.rooms) field payload now
        correlation_id property.0

-- `apply_mqtt_command` in its transaction, which the engine may refuse at a flush or at the end.
module _ (takes : Database → Database → Bool) (uuid : ℕ → ℕ) (parse_float : List ℕ → Option Float)
    (serialize : Payload → String) (prefix : String) (registry : RoomRegistry)
    (policy : HotelPolicy) where
  unfoldable pub apply_mqtt_command :
      String
      → String
      → Option (List ℕ)
      → ℕ
      → ℕ
      → Database
      → Result StoreError (Database × CommandProcessingResult)
  unfolding command_rows
  apply_mqtt_command room_key field payload now correlation_id db = stored takes db (
      command_rows uuid parse_float serialize prefix registry policy room_key field payload now
        correlation_id db)

-- Whether the latest override of a room counts as active; none leaves it to the row.
abbrev pub active_of : Option OverrideRow → Option RoomStateRow → ℕ → Option Bool
unfolding override_row_is_active
active_of none none now = none
active_of none (some s) now = some (is_manual_override s.automation_phase)
active_of (some row) none now = if override_row_is_active row now then none else some false
active_of (some row) (some s) now =
    if override_row_is_active row now
    then some (is_manual_override s.automation_phase)
    else some false

abbrev pub payload_of_room : String → ℕ → Database → Option RoomRow → ControlState
unfolding latest_override_row latest_room_state default_control_state_payload
    control_state_payload_from_override
payload_of_room room_key now db none = default_control_state_payload room_key now
payload_of_room room_key now db (some row) =
    let latest = latest_override_row row.id db in
    let active = active_of latest (latest_room_state row.id db) now in
    control_state_payload_from_override room_key latest now active

abbrev pub payload_of_property : String → ℕ → Database → Option PropertyRow → ControlState
unfolding default_control_state_payload
payload_of_property room_key now db none = default_control_state_payload room_key now
payload_of_property room_key now db (some property) =
    payload_of_room room_key now db (find (is_room property.id room_key) db.rooms)

unfoldable pub control_state_payload : RoomRegistry → String → ℕ → Database → ControlState
control_state_payload registry room_key now db =
    payload_of_property room_key now db (find (is_property registry.property_key) db.properties)
