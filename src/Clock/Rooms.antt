-- ===== src/Clock/Rooms.antt =====
-- app/clock/db_sync.py: `_recalculate_rooms`, the values that it computes for a room: the override in
-- force, the versions, what is hashed, and what is published.
pub mod Loading
pub mod Step
pub mod Steps
pub mod Counts
pub mod Versions
pub mod Idempotence
pub mod Soundness
pub mod Totality
use clock_ha_orchestrator.Prelude.{
  ℕ, ◌+◌, Bool, true, false, not, ◌&&◌, ◌||◌, Option, none, some, List, [], ◌∷◌, String, ◌<>◌,
  str_eq, ◌==◌, if◌then◌else◌, sorted_by,
}
use clock_ha_orchestrator.Prelude.Results.{Result, ok, err, ◌>>=◌}
use clock_ha_orchestrator.Domain.Enums.{
  BookingStatus, AutomationPhase, ControlMode, ManualHvacMode, AttentionReason, is_automatic,
  is_manual_override,
}
use clock_ha_orchestrator.Domain.Time.{DateTime, utc_time, to_hotel}
use clock_ha_orchestrator.Domain.Models.{
  ValueError, NormalizedBooking, Room, HotelPolicy, ManualOverride, HvacIntent, DesiredRoomIntent,
  RoomStateEvaluation,
}
use clock_ha_orchestrator.Domain.StateMachine.{evaluate_room}
use clock_ha_orchestrator.Outbox.Store.{OutboxEvent}
use clock_ha_orchestrator.Policy.Engine.{derive_room_intent}
use clock_ha_orchestrator.Policy.Control.Rows.{
  latest_override_row, latest_room_state, override_row_is_active, manual_override_from_row,
  utc_option, default_control_state_payload,
}
use clock_ha_orchestrator.Policy.Control.Service.{room_control_state}
use clock_ha_orchestrator.Persistence.Rows.{
  BookingRow, RoomStateRow, OverrideRow, policy_scheduler, AuditType, AuditEvent, ControlState,
  PmsState, Payload, control_state, pms_state, intent_state, outbox_event,
}
use clock_ha_orchestrator.Persistence.Session.{
  Database, find, add_audit, add_override, add_event, add_room_state,
}
use clock_ha_orchestrator.Clock.Registry.{RegistryEntry, RegistryRows, room_by_id}

-- The clock id of the booking whose checkout the override waits for.
abbrev pub own_booking : OverrideRow → List BookingRow → Option (Option String)
own_booking row bookings =
    if row.until_checkout
    then elim row.booking_id [
      | none ↦ some none
      | some id ↦ elim (find (λ b. b.id == id) bookings) [
        | none ↦ none
        | some b ↦ some (some b.clock_booking_id)
      ]
    ]
    else some none

abbrev pub override_of_own : OverrideRow → Option (Option String) → Option ManualOverride
unfolding manual_override_from_row
override_of_own row none = none
override_of_own row (some own) = manual_override_from_row row own

unfoldable pub override_of_latest : Option OverrideRow → ℕ → List BookingRow → Option ManualOverride
unfolding override_row_is_active override_of_own
override_of_latest none now bookings = none
override_of_latest (some row) now bookings =
    if override_row_is_active row now then override_of_own row (own_booking row bookings) else none

-- What `_room_state_hash` hashes of the booking, the state and the intent.
pub record SemanticBooking : Type 0 where
  pub clock_booking_id : String
  pub booking_status : BookingStatus
  pub arrival : ℕ
  pub departure : ℕ
  pub physical_room_id : Option String
  pub physical_room_number : Option String

pub record SemanticIntent : Type 0 where
  pub room_key : String
  pub automation_phase : AutomationPhase
  pub control_mode : ControlMode
  pub expires_at : Option DateTime
  pub hvac : HvacIntent
  pub water_heater : Bool
  pub convectors : Bool
  pub reason : String

pub record SemanticState : Type 0 where
  pub room_key : Option String
  pub phase : AutomationPhase
  pub booking : Option SemanticBooking
  pub needs_attention : Bool
  pub attention_reason : AttentionReason
  pub reason : String
  pub expires_at : Option DateTime
  pub intent : Option SemanticIntent

abbrev pub semantic_booking : Option NormalizedBooking → Option SemanticBooking
semantic_booking none = none
semantic_booking (some b) = some (record {
  clock_booking_id = b.clock_booking_id;
  booking_status = b.booking_status;
  arrival = b.arrival_date;
  departure = b.departure_date;
  physical_room_id = b.physical_room_id;
  physical_room_number = b.physical_room_number;
})

abbrev pub semantic_intent : Option DesiredRoomIntent → Option SemanticIntent
semantic_intent none = none
semantic_intent (some i) = some (record {
  room_key = i.room_key;
  automation_phase = i.automation_phase;
  control_mode = i.control_mode;
  expires_at = i.expires_at;
  hvac = i.hvac;
  water_heater = i.water_heater;
  convectors = i.convectors;
  reason = i.reason;
})

abbrev pub semantic_state : RoomStateEvaluation → Option DesiredRoomIntent → SemanticState
semantic_state s intent = record {
  room_key = s.room_key;
  phase = s.phase;
  booking = semantic_booking s.booking;
  needs_attention = s.needs_attention;
  attention_reason = s.attention_reason;
  reason = s.reason;
  expires_at = s.expires_at;
  intent = semantic_intent intent;
}

abbrev pub instant_of : Option DateTime → Option ℕ
instant_of none = none
instant_of (some t) = some t.instant

-- `_pms_state_payload`, in which a time is the instant that its text denotes.
abbrev pub pms_booking_state : RoomStateEvaluation → ℕ → Option NormalizedBooking → PmsState
pms_booking_state s correlation_id none = record {
  room_key = s.room_key;
  automation_phase = s.phase;
  booking_status = none;
  clock_booking_id = none;
  arrival = none;
  departure = none;
  needs_attention = s.needs_attention;
  attention_reason = s.attention_reason;
  reason = s.reason;
  effective_from = s.effective_from.instant;
  expires_at = instant_of s.expires_at;
  correlation_id = correlation_id;
}
pms_booking_state s correlation_id (some b) = record {
  room_key = s.room_key;
  automation_phase = s.phase;
  booking_status = some b.booking_status;
  clock_booking_id = some b.clock_booking_id;
  arrival = some b.arrival_date;
  departure = some b.departure_date;
  needs_attention = s.needs_attention;
  attention_reason = s.attention_reason;
  reason = s.reason;
  effective_from = s.effective_from.instant;
  expires_at = instant_of s.expires_at;
  correlation_id = correlation_id;
}

abbrev pub pms_state_payload : RoomStateEvaluation → ℕ → PmsState
pms_state_payload s correlation_id = pms_booking_state s correlation_id s.booking

-- `_next_intent_version`, and the version that a state without an intent keeps.
abbrev pub next_intent_version : Option RoomStateRow → ℕ
next_intent_version none = 1
next_intent_version (some s) = s.intent_version + 1

abbrev pub persisted_intent_version : Option DesiredRoomIntent → Option RoomStateRow → ℕ
persisted_intent_version (some i) latest = i.intent_version
persisted_intent_version none none = 0
persisted_intent_version none (some s) = s.intent_version

abbrev pub with_version : ℕ → Option DesiredRoomIntent → Option DesiredRoomIntent
with_version version none = none
with_version version (some i) = some (record i { intent_version = version })

-- `latest_state is not None and latest_state.payload_hash == semantic_hash`
abbrev pub same_hash : Option RoomStateRow → String → Bool
same_hash none h = false
same_hash (some s) h = str_eq s.payload_hash h

-- The id of the row of the booking that the state is about.
abbrev pub booking_row_id : ℕ → Option NormalizedBooking → List BookingRow → Option ℕ
booking_row_id property_id none bookings = none
booking_row_id property_id (some b) bookings =
    elim (find (λ r. (r.property_id == property_id) && str_eq r.clock_booking_id b.clock_booking_id)
      bookings) [ none ↦ none | some r ↦ some r.id ]

-- What `RoomRecalculationResult` counts.
pub record Recalculation : Type 0 where
  pub affected_room_keys : List String
  pub room_states_created : ℕ
  pub outbox_events_created : ℕ
  pub audit_events_created : ℕ

abbrev pub nothing : Recalculation
nothing = record {
  affected_room_keys = [];
  room_states_created = 0;
  outbox_events_created = 0;
  audit_events_created = 0;
}
