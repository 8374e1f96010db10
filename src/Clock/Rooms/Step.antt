-- ===== src/Clock/Rooms/Step.antt =====
-- app/clock/db_sync.py: `_recalculate_rooms`, from the rows of the bookings and the overrides to the
-- state, the intent and the events of each affected room. `hash` is the SHA-256 of the canonical text
-- of what `_room_state_hash` gives it.
use clock_ha_orchestrator.Prelude.{
  ℕ, ◌+◌, Bool, true, false, Option, none, some, List, [], ◌∷◌, ◌++◌, String, ◌<>◌, ◌==◌,
  if◌then◌else◌, sorted_by, is_some,
}
use clock_ha_orchestrator.Prelude.Results.{Result, ok, ◌>>=◌}
use clock_ha_orchestrator.Domain.Enums.{
  ControlMode, ManualHvacMode, is_automatic, is_manual_override,
}
use clock_ha_orchestrator.Domain.Time.{utc_time, to_hotel}
use clock_ha_orchestrator.Domain.Models.{
  ValueError, NormalizedBooking, Room, HotelPolicy, ManualOverride, DesiredRoomIntent,
  RoomStateEvaluation,
}
use clock_ha_orchestrator.Domain.StateMachine.{evaluate_room}
use clock_ha_orchestrator.Policy.Engine.{derive_room_intent}
use clock_ha_orchestrator.Policy.Control.Rows.{
  latest_override_row, latest_room_state, default_control_state_payload,
}
use clock_ha_orchestrator.Policy.Control.Service.{room_control_state}
use clock_ha_orchestrator.Persistence.Rows.{
  RoomStateRow, OverrideRow, policy_scheduler, AuditType, AuditEvent, Payload, control_state,
  pms_state, intent_state, outbox_event,
}
use clock_ha_orchestrator.Persistence.Session.{
  Database, find, add_audit, add_override, add_event, add_room_state,
}
use clock_ha_orchestrator.Clock.Registry.{RegistryEntry, RegistryRows, room_by_id}
use clock_ha_orchestrator.Clock.Rooms.{
  override_of_latest, SemanticState, semantic_state, pms_state_payload, next_intent_version,
  persisted_intent_version, with_version, same_hash, booking_row_id, instant_of, Recalculation,
  nothing,
}
use clock_ha_orchestrator.Clock.Rooms.Loading.{load_normalized_bookings}

abbrev pub room_pms_state : String → String → String
room_pms_state prefix room_key = prefix <> "/rooms/" <> room_key <> "/pms/state"

abbrev pub room_intent_state : String → String → String
room_intent_state prefix room_key = prefix <> "/rooms/" <> room_key <> "/intent/state"

-- The row by which the scheduler returns a room to automatic.
abbrev pub automatic_row : ℕ → ℕ → ℕ → ℕ → OverrideRow
automatic_row room_id command_id now id = record {
  id = id;
  room_id = room_id;
  booking_id = none;
  command_id = command_id;
  control_mode = ControlMode.automatic;
  hvac_mode = ManualHvacMode.off;
  target_temperature_c = none;
  water_heater_enabled = none;
  starts_at = now;
  expires_at = none;
  checkout_at = none;
  until_checkout = false;
  created_by = policy_scheduler;
}

abbrev pub room_audit : AuditType → ℕ → ℕ → Option ℕ → ℕ → ℕ → AuditEvent
room_audit event_type property_id room_id booking_id now correlation_id = record {
  property_id = property_id;
  room_id = some room_id;
  booking_id = booking_id;
  event_type = event_type;
  created_at = now;
  correlation_id = correlation_id;
}

abbrev pub count : Bool → ℕ
count true = 1
count false = 0

abbrev pub plus_counts : Recalculation → Recalculation → Recalculation
plus_counts a b = record {
  affected_room_keys = a.affected_room_keys ++ b.affected_room_keys;
  room_states_created = a.room_states_created + b.room_states_created;
  outbox_events_created = a.outbox_events_created + b.outbox_events_created;
  audit_events_created = a.audit_events_created + b.audit_events_created;
}

module _ (uuid : ℕ → ℕ) (serialize : Payload → String) (hash : SemanticState → String)
    (prefix : String) (policy : HotelPolicy) (now correlation_id : ℕ) where
  -- The fresh command id is drawn before the row's own.
  abbrev pub end_override : ℕ → ℕ → Database → Database
  end_override property_id room_id db =
      add_audit (room_audit AuditType.override_ended property_id room_id none now correlation_id) (
        add_override uuid (automatic_row room_id (uuid db.drawn) now)
          (record db { drawn = db.drawn + 1 }))

  -- `_end_inactive_override_if_needed`: the database, and whether an override ended, in which case the
  -- control state to publish is the default one.
  abbrev pub end_inactive_override :
      ℕ → ℕ → Option OverrideRow → RoomStateEvaluation → Database → Database × Bool
  end_inactive_override property_id room_id none state db = (db, false)
  end_inactive_override property_id room_id (some row) state db =
      if is_automatic row.control_mode
      then (db, false)
      else if is_manual_override state.phase
      then (db, false)
      else (end_override property_id room_id db, true)

  abbrev pub publish : String → Payload → Database → Database
  publish topic payload db = add_event uuid (outbox_event topic (serialize payload) now) db

  unfoldable pub publish_control : String → Bool → Database → Database
  unfolding default_control_state_payload
  publish_control room_key false db = db
  publish_control room_key true db =
      publish (room_control_state prefix room_key)
        (control_state (default_control_state_payload room_key now)) db

  abbrev pub publish_intent : String → Option DesiredRoomIntent → Database → Database
  publish_intent room_key none db = db
  publish_intent room_key (some intent) db =
      publish (room_intent_state prefix room_key) (intent_state intent) db

  abbrev pub audit_attention : Bool → ℕ → ℕ → Option ℕ → Database → Database
  audit_attention false property_id room_id booking_id db = db
  audit_attention true property_id room_id booking_id db =
      add_audit
        (room_audit AuditType.needs_attention property_id room_id booking_id now correlation_id) db

  abbrev pub state_row : ℕ → RoomStateEvaluation → Option ℕ → ℕ → String → ℕ → RoomStateRow
  state_row room_id state booking_id version semantic_hash id = record {
    id = id;
    room_id = room_id;
    automation_phase = state.phase;
    booking_id = booking_id;
    needs_attention = state.needs_attention;
    attention_reason = state.attention_reason;
    effective_from = state.effective_from.instant;
    expires_at = instant_of state.expires_at;
    intent_version = version;
    payload_hash = semantic_hash;
    created_at = now;
  }

  -- The room has the state that it had.
  unfoldable pub keep_state : String → Bool → Database → Database × Recalculation
  unfolding publish_control
  keep_state room_key ended db = (
    publish_control room_key ended db,
    record {
      affected_room_keys = if ended then room_key ∷ [] else [];
      room_states_created = 0;
      outbox_events_created = count ended;
      audit_events_created = count ended;
    },
  )

  -- The room has a new state; `intent` has its version.
  unfoldable pub store_state :
      ℕ
      → ℕ
      → String
      → RoomStateEvaluation
      → Option DesiredRoomIntent
      → ℕ
      → String
      → Bool
      → Database
      → Database × Recalculation
  unfolding publish_control
  store_state property_id room_id room_key state intent version semantic_hash ended db =
      let booking_id = booking_row_id property_id state.booking db.bookings in
      let stored =
        add_room_state uuid (state_row room_id state booking_id version semantic_hash) db in
      let pms =
        publish (room_pms_state prefix room_key)
          (pms_state (pms_state_payload state correlation_id)) stored in
      let published = publish_control room_key ended (publish_intent room_key intent pms) in
      (
        audit_attention state.needs_attention property_id room_id booking_id published,
        record {
          affected_room_keys = room_key ∷ [];
          room_states_created = 1;
          outbox_events_created = 1 + count (is_some intent) + count ended;
          audit_events_created = count ended + count state.needs_attention;
        },
      )

  -- What follows the derivation of the intent.
  unfoldable pub settle_room :
      ℕ
      → ℕ
      → String
      → Option OverrideRow
      → RoomStateEvaluation
      → Option DesiredRoomIntent
      → Database
      → Database × Recalculation
  unfolding latest_room_state store_state keep_state
  settle_room property_id room_id room_key latest_override state intent db =
      let latest = latest_room_state room_id db in
      let semantic_hash = hash (semantic_state state intent) in
      let ended = end_inactive_override property_id room_id latest_override state db in
      let next = with_version (next_intent_version latest) intent in
      if same_hash latest semantic_hash
      then keep_state room_key ended.1 ended.0
      else store_state property_id room_id room_key state next
          (persisted_intent_version next latest) semantic_hash ended.1 ended.0

  unfoldable pub evaluated :
      Room → List NormalizedBooking → Option ManualOverride → RoomStateEvaluation
  unfolding evaluate_room
  evaluated room bookings override =
      evaluate_room room bookings (to_hotel policy.property.tzinfo (utc_time now)) policy override

  unfoldable pub recalculate_entry :
      ℕ
      → RegistryEntry
      → List NormalizedBooking
      → Database
      → Result ValueError (Database × Recalculation)
  unfolding latest_override_row override_of_latest evaluated derive_room_intent settle_room
  recalculate_entry property_id entry bookings db = do
    let latest = latest_override_row entry.row_id db
    let override = override_of_latest latest now db.bookings
    let state = evaluated entry.room bookings override
    intent ← derive_room_intent state policy override correlation_id
    ok (settle_room property_id entry.row_id entry.room.key latest state intent db)

  -- A room that the registry or the table does not have is passed over.
  unfoldable pub recalculate_known :
      ℕ
      → Option RegistryEntry
      → Bool
      → List NormalizedBooking
      → Database
      → Result ValueError (Database × Recalculation)
  unfolding recalculate_entry
  recalculate_known property_id none has_row bookings db = ok (db, nothing)
  recalculate_known property_id (some entry) false bookings db = ok (db, nothing)
  recalculate_known property_id (some entry) true bookings db =
      recalculate_entry property_id entry bookings db

  unfoldable pub recalculate_room :
      RegistryRows
      → ℕ
      → List NormalizedBooking
      → Database
      → Result ValueError (Database × Recalculation)
  unfolding recalculate_known
  recalculate_room registry room_id bookings db =
      recalculate_known registry.property_id (room_by_id registry room_id)
        (is_some (find (λ r. r.id == room_id) db.rooms)) bookings db

  unfoldable pub recalculate_each :
      RegistryRows
      → List NormalizedBooking
      → List ℕ
      → Database
      → Result ValueError (Database × Recalculation)
  unfolding recalculate_room
  recalculate_each registry bookings [] db = ok (db, nothing)
  recalculate_each registry bookings (room_id ∷ rest) db = do
    first ← recalculate_room registry room_id bookings db
    others ← recalculate_each registry bookings rest first.0
    ok (others.0, plus_counts first.1 others.1)

  -- The text of a UUID sorts as its number does.
  unfoldable pub recalculate_rooms :
      RegistryRows → List ℕ → Database → Result ValueError (Database × Recalculation)
  unfolding load_normalized_bookings recalculate_each
  recalculate_rooms registry [] db = ok (db, nothing)
  recalculate_rooms registry (id ∷ ids) db = do
    bookings ← load_normalized_bookings registry.property_id registry.property_key db
    recalculate_each registry bookings (sorted_by (λ n. n) (id ∷ ids)) db
