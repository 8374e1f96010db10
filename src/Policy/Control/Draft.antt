-- ===== src/Policy/Control/Draft.antt =====
-- app/policy/control.py: `_build_override_row`, from the draft that the latest override leaves to the
-- row of the next one. The branches of the chain over `field` stand in a function each.
pub mod Laws
pub mod Boundaries
pub mod RoundTrip
use clock_ha_orchestrator.Prelude.{
  ℕ, ◌+◌, ◌*◌, Bool, true, false, Option, none, some, List, String, str_eq, ltb, ◌==◌,
  if◌then◌else◌,
}
use clock_ha_orchestrator.Prelude.Int.{pos}
use clock_ha_orchestrator.Prelude.Results.{Result, ok, err, ◌>>=◌}
use clock_ha_orchestrator.Domain.Enums.{
  AutomationPhase, ControlMode, ManualHvacMode, is_automatic, is_off,
}
use clock_ha_orchestrator.Domain.Time.{combine, minute}
use clock_ha_orchestrator.Domain.Temperature.{Float}
use clock_ha_orchestrator.Domain.Models.{
  PropertyPolicy, AutomationPolicy, HotelPolicy, clamp_temperature,
}
use clock_ha_orchestrator.Policy.Commands.{OverrideDuration, literal_minutes, clamp_target}
use clock_ha_orchestrator.Policy.Control.Text.{
  ControlError, undecodable, unsupported_field, duration_without_override, no_reservation,
  payload_text, control_mode_of, manual_hvac_mode_of, temperature_of, duration_of, boolean_payload,
}
use clock_ha_orchestrator.Policy.Control.Rows.{
  latest_override_row, latest_room_state, override_row_is_active, duration_from_row,
}
use clock_ha_orchestrator.Persistence.Rows.{
  BookingRow, RoomStateRow, OverrideRow, home_assistant_mqtt,
}
use clock_ha_orchestrator.Persistence.Session.{Database, find}

-- The texts that `field` is compared with.
pub data ControlField : Type 0 where
  return_to_automatic mode hvac_mode temperature duration water_heater : ControlField

unfoldable pub field_of : String → Result ControlError ControlField
field_of field =
    if str_eq field "return-to-automatic"
    then ok return_to_automatic
    else if str_eq field "mode"
    then ok mode
    else if str_eq field "hvac-mode"
    then ok hvac_mode
    else if str_eq field "temperature"
    then ok temperature
    else if str_eq field "duration"
    then ok duration
    else if str_eq field "water-heater"
    then ok water_heater
    else err unsupported_field

pub record OverrideDraft : Type 0 where
  pub control_mode : ControlMode
  pub hvac_mode : ManualHvacMode
  pub target_temperature_c : Option Float
  pub water_heater_enabled : Option Bool
  pub duration : OverrideDuration

abbrev pub default_override_draft : OverrideDraft
default_override_draft = record {
  control_mode = ControlMode.automatic;
  hvac_mode = ManualHvacMode.off;
  target_temperature_c = none;
  water_heater_enabled = some false;
  duration = OverrideDuration.minutes_60;
}

unfoldable pub draft_of_row : OverrideRow → OverrideDraft
unfolding duration_from_row
draft_of_row row = record {
  control_mode = row.control_mode;
  hvac_mode = row.hvac_mode;
  target_temperature_c = row.target_temperature_c;
  water_heater_enabled = row.water_heater_enabled;
  duration = duration_from_row row;
}

unfoldable pub draft_of_latest : Option OverrideRow → ℕ → OverrideDraft
unfolding override_row_is_active
draft_of_latest none now = default_override_draft
draft_of_latest (some row) now =
    if is_automatic row.control_mode
    then default_override_draft
    else if override_row_is_active row now
    then draft_of_row row
    else default_override_draft

unfoldable pub current_draft : ℕ → ℕ → Database → OverrideDraft
unfolding latest_override_row
current_draft room_id now db = draft_of_latest (latest_override_row room_id db) now

-- `value or default`, in which a zero counts as missing.
abbrev pub is_zero : Float → Bool
is_zero (Float.fin (pos n)) = n == 0
is_zero _ = false

abbrev pub or_default : Option Float → Float → Float
or_default none default = default
or_default (some t) default = if is_zero t then default else t

abbrev pub mode_or : ManualHvacMode → ManualHvacMode → ManualHvacMode
mode_or m default = if is_off m then default else m

abbrev pub draft_of_mode : AutomationPolicy → OverrideDraft → ControlMode → OverrideDraft
draft_of_mode policy base ControlMode.automatic = record {
  control_mode = ControlMode.automatic;
  hvac_mode = ManualHvacMode.off;
  target_temperature_c = none;
  water_heater_enabled = none;
  duration = base.duration;
}
draft_of_mode policy base ControlMode.off = record {
  control_mode = ControlMode.off;
  hvac_mode = ManualHvacMode.off;
  target_temperature_c = none;
  water_heater_enabled = some false;
  duration = base.duration;
}
draft_of_mode policy base ControlMode.manual = record {
  control_mode = ControlMode.manual;
  hvac_mode = mode_or base.hvac_mode ManualHvacMode.auto;
  target_temperature_c =
      some (or_default base.target_temperature_c policy.default_heating_target_c);
  water_heater_enabled = base.water_heater_enabled;
  duration = base.duration;
}

abbrev pub draft_of_hvac_mode : AutomationPolicy → OverrideDraft → ManualHvacMode → OverrideDraft
draft_of_hvac_mode policy base m = record {
  control_mode = ControlMode.manual;
  hvac_mode = m;
  target_temperature_c =
      if is_off m
      then none
      else some (or_default base.target_temperature_c policy.default_heating_target_c);
  water_heater_enabled = base.water_heater_enabled;
  duration = base.duration;
}

abbrev pub draft_of_temperature : AutomationPolicy → OverrideDraft → Float → OverrideDraft
draft_of_temperature policy base t = record {
  control_mode = ControlMode.manual;
  hvac_mode = mode_or base.hvac_mode ManualHvacMode.heat;
  target_temperature_c = some (clamp_temperature policy t);
  water_heater_enabled = base.water_heater_enabled;
  duration = base.duration;
}

abbrev pub draft_of_duration : OverrideDraft → OverrideDuration → OverrideDraft
draft_of_duration base d = record base { duration = d }

abbrev pub draft_of_water_heater : OverrideDraft → Bool → OverrideDraft
draft_of_water_heater base on = record base {
  control_mode = ControlMode.manual;
  water_heater_enabled = some on;
}

module _ (parse_float : List ℕ → Option Float) (policy : AutomationPolicy) where
  unfoldable pub next_draft :
      ControlField → List ℕ → OverrideDraft → Result ControlError OverrideDraft
  unfolding control_mode_of manual_hvac_mode_of temperature_of duration_of boolean_payload
  next_draft return_to_automatic text base = ok (record {
    control_mode = ControlMode.automatic;
    hvac_mode = ManualHvacMode.off;
    target_temperature_c = none;
    water_heater_enabled = none;
    duration = OverrideDuration.minutes_60;
  })
  next_draft mode text base = do m ← control_mode_of text; ok (draft_of_mode policy base m)
  next_draft hvac_mode text base = do
    m ← manual_hvac_mode_of text
    ok (draft_of_hvac_mode policy base m)
  next_draft temperature text base = do
    t ← temperature_of parse_float text
    ok (draft_of_temperature policy base t)
  next_draft duration text base =
      if is_automatic base.control_mode
      then err duration_without_override
      else (do d ← duration_of text policy; ok (draft_of_duration base d))
  next_draft water_heater text base = do
    on ← boolean_payload text
    ok (draft_of_water_heater base on)

-- `_expiry_for_duration`
unfoldable pub expiry_for_duration : OverrideDuration → ℕ → Option ℕ × Bool
expiry_for_duration d now = elim (literal_minutes d) [
  | none ↦ (none, true)
  | some m ↦ (some (now + m * minute), false)
]

pub record BookingBoundary : Type 0 where
  pub booking_id : ℕ
  pub checkout_at : ℕ

abbrev pub has_reservation : AutomationPhase → Bool
has_reservation AutomationPhase.manual_override = true
has_reservation AutomationPhase.occupied = true
has_reservation AutomationPhase.pre_arrival = true
has_reservation AutomationPhase.reserved = true
has_reservation _ = false

-- The checkout of a booking, if it is still to come.
abbrev pub boundary_of_booking : PropertyPolicy → ℕ → Option BookingRow → Option BookingBoundary
boundary_of_booking policy now none = none
boundary_of_booking policy now (some b) =
    let checkout = (combine policy.tzinfo b.departure_date policy.default_check_out_time).instant in
    if ltb now checkout then some (record { booking_id = b.id; checkout_at = checkout }) else none

abbrev pub boundary_of_id :
    PropertyPolicy → ℕ → List BookingRow → AutomationPhase → Option ℕ → Option BookingBoundary
boundary_of_id policy now bookings phase none = none
boundary_of_id policy now bookings phase (some id) =
    if has_reservation phase
    then boundary_of_booking policy now (find (λ b. b.id == id) bookings)
    else none

abbrev pub boundary_of_state :
    PropertyPolicy → ℕ → List BookingRow → Option RoomStateRow → Option BookingBoundary
boundary_of_state policy now bookings none = none
boundary_of_state policy now bookings (some s) =
    boundary_of_id policy now bookings s.automation_phase s.booking_id

unfoldable pub current_booking_boundary : PropertyPolicy → ℕ → ℕ → Database → Option BookingBoundary
unfolding latest_room_state
current_booking_boundary policy room_id now db =
    boundary_of_state policy now db.bookings (latest_room_state room_id db)

-- The row of a draft. `row.command_id` is what `apply_mqtt_command` sets it to right after, in
-- place of the fresh one; the row's own id is drawn when it is flushed.
module _ (policy : AutomationPolicy) (room_id : ℕ) (now : ℕ) (command_id : ℕ)
    (draft : OverrideDraft) where
  abbrev pub row_of_draft : Option ℕ → Option ℕ → Option ℕ → Bool → (ℕ → OverrideRow)
  row_of_draft booking_id checkout_at expires_at until_checkout id = record {
    id = id;
    room_id = room_id;
    booking_id = booking_id;
    command_id = command_id;
    control_mode = draft.control_mode;
    hvac_mode = draft.hvac_mode;
    target_temperature_c = clamp_target policy draft.target_temperature_c;
    water_heater_enabled = draft.water_heater_enabled;
    starts_at = now;
    expires_at = expires_at;
    checkout_at = checkout_at;
    until_checkout = until_checkout;
    created_by = home_assistant_mqtt;
  }

  abbrev pub with_limit :
      Option ℕ × Bool → Option BookingBoundary → Result ControlError (ℕ → OverrideRow)
  with_limit (expires_at, true) none = err no_reservation
  with_limit (expires_at, true) (some b) =
      ok (row_of_draft (some b.booking_id) (some b.checkout_at) expires_at true)
  with_limit (expires_at, false) _ = ok (row_of_draft none none expires_at false)

  -- The limits that the draft's mode and duration ask for.
  unfoldable pub limited_row : Option BookingBoundary → Result ControlError (ℕ → OverrideRow)
  unfolding expiry_for_duration
  limited_row boundary =
      if is_automatic draft.control_mode
      then ok (row_of_draft none none none false)
      else with_limit (expiry_for_duration draft.duration now) boundary

module _ (parse_float : List ℕ → Option Float) (policy : HotelPolicy) where
  unfoldable pub build_override_row :
      ℕ → String → Option (List ℕ) → ℕ → ℕ → Database → Result ControlError (ℕ → OverrideRow)
  unfolding payload_text current_draft field_of next_draft current_booking_boundary limited_row
  build_override_row room_id field payload now command_id db = do
    text ← payload_text payload
    known ← field_of field
    draft ← next_draft parse_float policy.automation known text (current_draft room_id now db)
    limited_row policy.automation room_id now command_id draft
        (current_booking_boundary policy.property room_id now db)
