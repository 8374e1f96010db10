-- ===== src/Policy/Control/Rows.antt =====
-- app/policy/control.py: what the rows of overrides and of room states mean.
use clock_ha_orchestrator.Prelude.{
  ℕ, ◌-◌, Bool, false, not, Option, none, some, String, ltb, ◌==◌, if◌then◌else◌, select, is_some,
}
use clock_ha_orchestrator.Domain.Enums.{ControlMode, ManualHvacMode, is_automatic}
use clock_ha_orchestrator.Domain.Time.{minute, DateTime, utc_time}
use clock_ha_orchestrator.Domain.Models.{ManualOverride}
use clock_ha_orchestrator.G301.Registers.{round_half_even}
use clock_ha_orchestrator.Policy.Commands.{OverrideDuration}
use clock_ha_orchestrator.Policy.Engine.{is_true}
use clock_ha_orchestrator.Persistence.Rows.{OverrideRow, RoomStateRow, ControlState}
use clock_ha_orchestrator.Persistence.Session.{Database, newest}

unfoldable pub latest_override_row : ℕ → Database → Option OverrideRow
latest_override_row room_id db =
    newest (λ r. r.starts_at) (λ r. r.id) (select (λ r. r.room_id == room_id) db.overrides)

unfoldable pub latest_room_state : ℕ → Database → Option RoomStateRow
latest_room_state room_id db =
    newest (λ r. r.created_at) (λ r. r.id) (select (λ r. r.room_id == room_id) db.room_states)

-- `limit is not None and limit > now`
abbrev pub ends_after : Option ℕ → ℕ → Bool
ends_after none now = false
ends_after (some limit) now = ltb now limit

unfoldable pub override_row_is_active : OverrideRow → ℕ → Bool
override_row_is_active row now =
    if is_automatic row.control_mode
    then false
    else if row.until_checkout
    then if is_some row.booking_id then ends_after row.checkout_at now else false
    else ends_after row.expires_at now

-- `str(minutes)`, if it is one of `SUPPORTED_DURATIONS`, and else the default.
abbrev pub duration_of_minutes : ℕ → OverrideDuration
duration_of_minutes n =
    if n == 240
    then OverrideDuration.minutes_240
    else if n == 720
    then OverrideDuration.minutes_720
    else OverrideDuration.minutes_60

-- A row that expires before it starts has a negative duration, which is not supported either.
unfoldable pub duration_from_row : OverrideRow → OverrideDuration
duration_from_row row =
    if row.until_checkout then OverrideDuration.until_checkout else elim row.expires_at [
      | none ↦ OverrideDuration.minutes_60
      | some t ↦ duration_of_minutes (round_half_even (t - row.starts_at) minute)
    ]

abbrev pub utc_option : Option ℕ → Option DateTime
utc_option none = none
utc_option (some t) = some (utc_time t)

-- `ManualOverride(...)` of the columns of a row.
abbrev pub override_of_row : OverrideRow → Option String → ManualOverride
override_of_row row clock_booking_id = record {
  control_mode = row.control_mode;
  clock_booking_id = clock_booking_id;
  hvac_mode = row.hvac_mode;
  target_temperature_c = row.target_temperature_c;
  water_heater_enabled = row.water_heater_enabled;
  expires_at = utc_option row.expires_at;
  checkout_at = utc_option row.checkout_at;
  until_checkout = row.until_checkout;
  command_id = row.command_id;
}

unfoldable pub manual_override_from_row : OverrideRow → Option String → Option ManualOverride
manual_override_from_row row clock_booking_id =
    if is_automatic row.control_mode then none else some (override_of_row row clock_booking_id)

unfoldable pub default_control_state_payload : String → ℕ → ControlState
default_control_state_payload room_key now = record {
  room_key = room_key;
  control_mode = ControlMode.automatic;
  manual_hvac_mode = ManualHvacMode.off;
  manual_target_temperature_c = none;
  override_duration = OverrideDuration.minutes_60;
  manual_water_heater_enabled = false;
  active = false;
  until_checkout = false;
  expires_at = none;
  command_id = none;
  updated_at = now;
}

abbrev pub or_else_time : Option ℕ → Option ℕ → Option ℕ
or_else_time none other = other
or_else_time (some t) other = some t

-- The payload of an override in force.
abbrev pub override_payload : String → OverrideRow → ℕ → ControlState
override_payload room_key row now = record {
  room_key = room_key;
  control_mode = row.control_mode;
  manual_hvac_mode = row.hvac_mode;
  manual_target_temperature_c = row.target_temperature_c;
  override_duration = duration_from_row row;
  manual_water_heater_enabled = is_true row.water_heater_enabled;
  active = not (is_automatic row.control_mode);
  until_checkout = row.until_checkout;
  expires_at = or_else_time row.expires_at row.checkout_at;
  command_id = some row.command_id;
  updated_at = now;
}

-- `active` is none where the caller leaves it out.
unfoldable pub control_state_payload_from_override :
    String → Option OverrideRow → ℕ → Option Bool → ControlState
unfolding default_control_state_payload override_row_is_active duration_from_row
control_state_payload_from_override room_key none now active =
    default_control_state_payload room_key now
control_state_payload_from_override room_key (some row) now active =
    if elim active [ none ↦ override_row_is_active row now | some a ↦ a ]
    then override_payload room_key row now
    else default_control_state_payload room_key now
