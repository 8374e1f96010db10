-- ===== src/Persistence/Rows.antt =====
-- The rows of app/persistence/models.py, with the columns that the modelled code reads, and the texts
-- that it puts on MQTT. Identifiers are numbers, time stamps are instants in microseconds, and the
-- texts of an enumeration are its values.
use clock_ha_orchestrator.Prelude.{ℕ, Bool, true, Option, none, some, String}
use clock_ha_orchestrator.Domain.Enums.{
  BookingStatus, AutomationPhase, ControlMode, ManualHvacMode, AttentionReason,
}
use clock_ha_orchestrator.Domain.Temperature.{Float}
use clock_ha_orchestrator.Domain.Models.{DesiredRoomIntent}
use clock_ha_orchestrator.Policy.Commands.{OverrideDuration}
use clock_ha_orchestrator.Outbox.Store.{OutboxEvent, Status}

pub record PropertyRow : Type 0 where
  pub id : ℕ
  pub key : String

pub record RoomRow : Type 0 where
  pub id : ℕ
  pub property_id : ℕ
  pub key : String
  pub name : String
  pub entrance_key : String
  pub clock_room_id : Option String
  pub enabled : Bool

pub record BookingRow : Type 0 where
  pub id : ℕ
  pub property_id : ℕ
  pub clock_booking_id : String
  pub booking_status : BookingStatus
  pub source_booking_status : String
  pub arrival_date : ℕ
  pub departure_date : ℕ
  pub payload_hash : String
  pub needs_attention : Bool
  pub attention_reason : AttentionReason

pub record AssignmentRow : Type 0 where
  pub id : ℕ
  pub booking_id : ℕ
  pub room_id : Option ℕ
  pub clock_room_id : Option String
  pub physical_room_number : Option String
  pub assigned_at : ℕ
  pub removed_at : Option ℕ
  pub is_current : Bool

pub record RoomStateRow : Type 0 where
  pub id : ℕ
  pub room_id : ℕ
  pub automation_phase : AutomationPhase
  pub booking_id : Option ℕ
  pub needs_attention : Bool
  pub attention_reason : AttentionReason
  pub effective_from : ℕ
  pub expires_at : Option ℕ
  pub intent_version : ℕ
  pub payload_hash : String
  pub created_at : ℕ

pub data Creator : Type 0 where
  home_assistant_mqtt policy_scheduler : Creator

-- `hvac_mode` is nullable in the table; `row.hvac_mode or OFF` reads a missing mode as off.
pub record OverrideRow : Type 0 where
  pub id : ℕ
  pub room_id : ℕ
  pub booking_id : Option ℕ
  pub command_id : ℕ
  pub control_mode : ControlMode
  pub hvac_mode : ManualHvacMode
  pub target_temperature_c : Option Float
  pub water_heater_enabled : Option Bool
  pub starts_at : ℕ
  pub expires_at : Option ℕ
  pub checkout_at : Option ℕ
  pub until_checkout : Bool
  pub created_by : Creator

pub record CursorRow : Type 0 where
  pub property_id : ℕ
  pub source : String
  pub cursor_value : Option String
  pub last_success_at : Option ℕ
  pub updated_at : ℕ

pub record SyncRunRow : Type 0 where
  pub id : ℕ
  pub property_id : ℕ
  pub started_at : ℕ
  pub finished_at : ℕ
  pub success : Bool
  pub processed_bookings : ℕ
  pub error_classification : Option String
  pub correlation_id : ℕ

pub data AuditType : Type 0 where
  command_accepted command_rejected override_ended : AuditType
  assignment_removed assignment_changed room_not_in_registry : AuditType
  awaiting_assignment needs_attention : AuditType

pub record AuditEvent : Type 0 where
  pub property_id : ℕ
  pub room_id : Option ℕ
  pub booking_id : Option ℕ
  pub event_type : AuditType
  pub created_at : ℕ
  pub correlation_id : ℕ

-- The dictionary of a room's control state.
pub record ControlState : Type 0 where
  pub room_key : String
  pub control_mode : ControlMode
  pub manual_hvac_mode : ManualHvacMode
  pub manual_target_temperature_c : Option Float
  pub override_duration : OverrideDuration
  pub manual_water_heater_enabled : Bool
  pub active : Bool
  pub until_checkout : Bool
  pub expires_at : Option ℕ
  pub command_id : Option ℕ
  pub updated_at : ℕ

-- The dictionary of a room's state in the property management system.
pub record PmsState : Type 0 where
  pub room_key : Option String
  pub automation_phase : AutomationPhase
  pub booking_status : Option BookingStatus
  pub clock_booking_id : Option String
  pub arrival : Option ℕ
  pub departure : Option ℕ
  pub needs_attention : Bool
  pub attention_reason : AttentionReason
  pub reason : String
  pub effective_from : ℕ
  pub expires_at : Option ℕ
  pub correlation_id : ℕ

-- What the payload column of an outbox event can hold.
pub data Payload : Type 0 where
  control_state : ControlState → Payload
  pms_state : PmsState → Payload
  intent_state : DesiredRoomIntent → Payload

-- A new outbox event, as control.py and db_sync.py make it; the text of the payload is its JSON.
abbrev pub outbox_event : String → String → ℕ → ℕ → OutboxEvent
outbox_event topic payload now id = record {
  id = id;
  topic = topic;
  payload = payload;
  qos = 1;
  retain = true;
  status = Status.pending;
  attempts = 0;
  next_attempt_at = some now;
  created_at = now;
  published_at = none;
  claimed_at = none;
  claimed_by = none;
  last_error = none;
}
