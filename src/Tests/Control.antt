-- ===== src/Tests/Control.antt =====
-- Commands of the dashboard for the rooms of Tests/Rooms.antt.
use clock_ha_orchestrator.Prelude.{
  ℕ, ◌+◌, ◌*◌, ◌≡◌, refl, Bool, true, false, not, ◌&&◌, Option, none, some, List, [], ◌∷◌, String,
  All, arith,
}
use clock_ha_orchestrator.Prelude.Results.{ok}
use clock_ha_orchestrator.Domain.Enums.{ControlMode, ManualHvacMode}
use clock_ha_orchestrator.Domain.Time.{minute, utc_time, to_hotel}
use clock_ha_orchestrator.Domain.Temperature.{Float, degrees}
use clock_ha_orchestrator.Domain.Models.{RoomRegistry, is_active, other_booking}
use clock_ha_orchestrator.Policy.Commands.{OverrideDuration}
use clock_ha_orchestrator.Policy.Control.Text.{
  codes, payload_text, strip, trim_left, trim_right, before_quote, control_mode_of,
}
use clock_ha_orchestrator.Policy.Control.Rows.{
  override_row_is_active, override_of_row, latest_override_row,
}
use clock_ha_orchestrator.Policy.Control.Draft.{
  OverrideDraft, draft_of_latest, draft_of_row, field_of, current_draft, next_draft,
  current_booking_boundary, expiry_for_duration, limited_row, build_override_row,
}
use clock_ha_orchestrator.Policy.Control.Draft.Laws.{timed, IsCommandRow}
use clock_ha_orchestrator.Policy.Control.Service.{
  ensure_property, ensure_room, settle_command, apply_to_room, command_rows, apply_mqtt_command,
  CommandProcessingResult,
}
use clock_ha_orchestrator.Policy.Control.Service.Laws.{Rejected, override_of_row-active}
use clock_ha_orchestrator.Policy.Control.Service.Outcome.{AddsBounded, AcceptedFor}
use clock_ha_orchestrator.Policy.Control.Service.Transactions.{
  apply_mqtt_command-IsCommandRow, apply_mqtt_command-Rejected, apply_mqtt_command-Accepted,
}
use clock_ha_orchestrator.Persistence.Rows.{OverrideRow, home_assistant_mqtt, Payload}
use clock_ha_orchestrator.Persistence.Session.{Database}
use clock_ha_orchestrator.Tests.Rooms.{zone, hotel, room_101}

abbrev pub fresh : ℕ → ℕ
fresh n = n + 100

abbrev pub no_float : List ℕ → Option Float
no_float _ = none

abbrev pub as_text : Payload → String
as_text _ = "{}"

abbrev pub small_registry : RoomRegistry
small_registry = record { property_key = "hotel"; entrances = []; rooms = room_101 ∷ [] }

-- An override of an hour, which began at the instant 1000.
abbrev pub heated : OverrideRow
heated = record {
  id = 3;
  room_id = 2;
  booking_id = none;
  command_id = 9;
  control_mode = ControlMode.manual;
  hvac_mode = ManualHvacMode.heat;
  target_temperature_c = some (degrees 21);
  water_heater_enabled = some true;
  starts_at = 1000;
  expires_at = some (1000 + 60 * minute);
  checkout_at = none;
  until_checkout = false;
  created_by = home_assistant_mqtt;
}

pub heated-IsCommandRow : IsCommandRow heated
heated-IsCommandRow = (tt, timed OverrideDuration.minutes_60 60 refl)

abbrev pub one_override : Database
one_override = record {
  properties = record { id = 1; key = "hotel" } ∷ [];
  rooms =
      record {
        id = 2;
        property_id = 1;
        key = "r101";
        name = "Room 101";
        entrance_key = "a";
        clock_room_id = some "c101";
        enabled = true;
      }
      ∷ [];
  bookings = [];
  assignments = [];
  room_states = [];
  overrides = heated ∷ [];
  cursors = [];
  sync_runs = [];
  outbox_events = [];
  audit_events = [];
  drawn = 0;
}

-- An engine that takes every change.
abbrev pub willing : Database → Database → Bool
willing _ _ = true

-- The command, whose transaction the engine takes, and the one that it rejects.
abbrev manual : String → Database × CommandProcessingResult
unfolding command_rows
manual room_key =
    command_rows fresh no_float as_text "hotel/v1" small_registry hotel room_key "mode"
      (some (codes "manual")) 2000 5 one_override

manual-ok :
    (room_key : String)
    → apply_mqtt_command willing fresh no_float as_text "hotel/v1" small_registry hotel room_key
        "mode"
        (some (codes "manual"))
        2000
        5
        one_override
      ≡ ok (manual room_key)
unfolding apply_mqtt_command
manual-ok room_key = refl

apply_mqtt_command-IsCommandRow_example :
    All IsCommandRow (manual "r101").0.overrides
    × AddsBounded fresh no_float as_text "hotel/v1" small_registry hotel "r101" "mode"
        (some (codes "manual"))
        2000
        5
        one_override
        (manual "r101").0
apply_mqtt_command-IsCommandRow_example =
    apply_mqtt_command-IsCommandRow fresh no_float as_text "hotel/v1" small_registry hotel "r101"
      "mode" (some (codes "manual")) 2000 5 willing one_override (manual "r101") (manual-ok "r101")
      (heated-IsCommandRow, tt)

apply_mqtt_command-Rejected_example : Rejected 2000 5 one_override (manual "r102").0
unfolding command_rows apply_to_room
apply_mqtt_command-Rejected_example =
    apply_mqtt_command-Rejected fresh no_float as_text "hotel/v1" small_registry hotel "r102" "mode"
      (some (codes "manual")) 2000 5 willing one_override (manual "r102") (manual-ok "r102") refl

apply_mqtt_command-Accepted_example :
    AcceptedFor fresh no_float as_text "hotel/v1" small_registry hotel "r101" "mode"
      (some (codes "manual"))
      2000
      5
      one_override
      (manual "r101").0
unfolding command_rows apply_to_room settle_command ensure_property ensure_room build_override_row
    payload_text strip trim_left trim_right before_quote control_mode_of field_of current_draft
    draft_of_latest draft_of_row latest_override_row override_row_is_active next_draft
    current_booking_boundary limited_row expiry_for_duration
apply_mqtt_command-Accepted_example =
    apply_mqtt_command-Accepted fresh no_float as_text "hotel/v1" small_registry hotel "r101" "mode"
      (some (codes "manual")) 2000 5 willing one_override (manual "r101") (manual-ok "r101")
      (omega arith, tt) refl

override_of_row-active_example :
    is_active (override_of_row heated none) (to_hotel zone (utc_time 2000)) none
    ≡ (override_row_is_active heated 2000 && not (heated.until_checkout && other_booking none none))
override_of_row-active_example =
    override_of_row-active zone heated 2000 none none heated-IsCommandRow

abbrev draft : OverrideDraft
draft = record {
  control_mode = ControlMode.manual;
  hvac_mode = ManualHvacMode.heat;
  target_temperature_c = some (degrees 40);
  water_heater_enabled = none;
  duration = OverrideDuration.minutes_240;
}
