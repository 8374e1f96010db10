-- ===== src/Tests/Intents.antt =====
-- Intents and dashboard commands for the rooms of Tests/Rooms.antt.
use clock_ha_orchestrator.Prelude.{◌+◌, ◌*◌, ◌≡◌, refl, true, false, none, some, [], ◌∷◌, arith}
use clock_ha_orchestrator.Prelude.Results.{ok, err, is_ok}
use clock_ha_orchestrator.Domain.Enums.{
  AutomationPhase, ControlMode, ManualHvacMode, BookingStatus, AttentionReason,
}
use clock_ha_orchestrator.Domain.Time.{day, minute, DateTime, hotel_time}
use clock_ha_orchestrator.Domain.Temperature.{degrees}
use clock_ha_orchestrator.Domain.Models.{
  NormalizedBooking, ManualOverride, is_active, validate_hvac_state, validate_intent,
  DesiredRoomIntent, RoomStateEvaluation, clamp_temperature, intent_window,
}
use clock_ha_orchestrator.Domain.StateMachine.{evaluate_room, is_candidate}
use clock_ha_orchestrator.Domain.StateMachine.Windows.{IsDaily}
use clock_ha_orchestrator.Policy.Engine.{
  build_intent, automatic_intent, policy_intent, intent_for_room, derive_room_intent,
}
use clock_ha_orchestrator.Policy.Engine.Totality.{
  derive_room_intent_total, derive_room_intent_day_use,
}
use clock_ha_orchestrator.Policy.Engine.Safety.{heats_water, derive_room_intent-heats_water}
use clock_ha_orchestrator.Policy.Commands.{
  ManualControlCommand, OverrideDuration, override_of_mode, duration_minutes, command_to_override,
}
use clock_ha_orchestrator.Policy.Commands.Laws.{holds, command_to_override-active}
use clock_ha_orchestrator.Tests.Rooms.{
  zone, hotel, room_101, stay, guest, two_stays, noon, override_until_two,
}

pub hotel-IsDaily : IsDaily hotel
hotel-IsDaily = record { check_in_in_day = omega arith; check_out_in_day = omega arith }

derive_room_intent_total_example :
    is_ok (
      derive_room_intent
        (evaluate_room room_101 two_stays noon hotel (some override_until_two))
        hotel
        (some override_until_two)
        5)
    ≡ true
derive_room_intent_total_example =
    derive_room_intent_total room_101 two_stays noon hotel (some override_until_two) 5 refl
      (omega arith, (omega arith, tt)) hotel-IsDaily (λ e. ground arith) tt

-- A room in use at noon, and its intent.
abbrev pub in_use : RoomStateEvaluation
in_use = record {
  room_key = some "r101";
  phase = AutomationPhase.occupied;
  booking = some guest;
  needs_attention = false;
  attention_reason = AttentionReason.no_reason;
  reason = "in_house_guest";
  effective_from = noon;
  expires_at = none;
}

abbrev pub served : DesiredRoomIntent
served = record {
  room_key = "r101";
  intent_version = 1;
  automation_phase = AutomationPhase.occupied;
  control_mode = ControlMode.automatic;
  effective_from = noon;
  expires_at = none;
  hvac = record {
    enabled = true;
    mode = ManualHvacMode.auto;
    target_temperature_c = some (degrees 22);
  };
  water_heater = true;
  convectors = true;
  reason = "in_house_guest";
  correlation_id = 5;
}

serves : derive_room_intent in_use hotel none 5 ≡ ok (some served)
unfolding derive_room_intent intent_for_room policy_intent automatic_intent build_intent
    validate_intent validate_hvac_state clamp_temperature
serves = refl

derive_room_intent-heats_water_example : heats_water AutomationPhase.occupied ≡ true
derive_room_intent-heats_water_example =
    derive_room_intent-heats_water in_use hotel none 5 served serves refl

-- A booking of day 10 alone, at one o'clock.
abbrev day_guest : NormalizedBooking
day_guest = stay BookingStatus.expected 10 10

abbrev one_o_clock : DateTime
one_o_clock = hotel_time zone (10 * day + 780 * minute)

derive_room_intent_day_use_example :
    derive_room_intent (evaluate_room room_101 (day_guest ∷ []) one_o_clock hotel none) hotel none 5
    ≡ err intent_window
unfolding is_candidate
derive_room_intent_day_use_example =
    derive_room_intent_day_use room_101 day_guest one_o_clock hotel 5 refl refl refl refl refl
      (omega arith)

abbrev command : ManualControlCommand
command = record {
  command_id = 7;
  control_mode = ControlMode.manual;
  manual_hvac_mode = ManualHvacMode.heat;
  manual_target_temperature_c = some (degrees 21);
  override_duration = OverrideDuration.minutes_60;
  manual_water_heater_enabled = none;
  schema_version = 1;
}

abbrev commanded : ManualOverride
commanded = record {
  control_mode = ControlMode.manual;
  clock_booking_id = none;
  hvac_mode = ManualHvacMode.heat;
  target_temperature_c = some (degrees 21);
  water_heater_enabled = none;
  expires_at = some (hotel_time zone (10 * day + 780 * minute));
  checkout_at = none;
  until_checkout = false;
  command_id = 7;
}

accepted : command_to_override zone command hotel.automation noon ≡ ok commanded
unfolding command_to_override override_of_mode duration_minutes clamp_temperature
accepted = refl

command_to_override-active_example :
    is_active commanded one_o_clock none ≡ holds zone command noon one_o_clock
command_to_override-active_example =
    command_to_override-active zone command hotel.automation noon one_o_clock none commanded
      accepted
