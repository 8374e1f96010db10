-- ===== src/Tests/Rooms.antt =====
-- Rooms and bookings of a small hotel, two hours ahead of UTC. Day 10 is an ordinary day.
use clock_ha_orchestrator.Prelude.{
  ℕ, ◌+◌, ◌-◌, ◌*◌, ◌≡◌, ◌≤◌, refl, ◌↔◌, ◌⊎◌, inl, true, false, none, some, List, [], ◌∷◌,
  if◌then◌else◌, All, Any,
}
use clock_ha_orchestrator.Prelude.Results.{is_ok}
use clock_ha_orchestrator.Domain.Enums.{
  BookingStatus, AutomationPhase, ControlMode, ManualHvacMode, AttentionReason, is_checked_in,
}
use clock_ha_orchestrator.Domain.Time.{
  ZoneInfo, DateTime, day, minute, hotel_time, date_of, not_after,
}
use clock_ha_orchestrator.Domain.Temperature.{degrees}
use clock_ha_orchestrator.Domain.Models.{
  NormalizedBooking, Room, RoomRegistry, HotelPolicy, ManualOverride, is_active,
}
use clock_ha_orchestrator.Domain.StateMachine.{
  points_at_unknown, bookings_overlap, is_candidate, active_bookings_for_room, first_conflict,
  select_relevant_booking, earliest, evaluate_enabled, evaluate_candidates, evaluate_conflict_free,
  evaluate_selected, checkout_at, overrides, evaluate_room,
}
use clock_ha_orchestrator.Domain.StateMachine.Selection.{IsChosen, select_relevant_booking-Choice}
use clock_ha_orchestrator.Domain.StateMachine.Stays.{IsStay}
use clock_ha_orchestrator.Domain.StateMachine.Phases.{Apart, NoUnknown}
use clock_ha_orchestrator.Domain.StateMachine.Guarantees.{
  evaluate_room-vacant_iff, evaluate_room-conflict_iff, evaluate_room_in_house,
  evaluate_room-manual_override, evaluate_room_unassigned_unknown,
}
use clock_ha_orchestrator.Domain.Registry.{validate_registry}
use clock_ha_orchestrator.Domain.Registry.Laws.{IsWellFormed, validate_registry_iff}

abbrev pub zone : ZoneInfo
zone = record { to_utc = λ w. w - 7200000000; to_wall = λ i. i + 7200000000 }

abbrev pub hotel : HotelPolicy
hotel = record {
  property = record {
    tzinfo = zone;
    default_check_in_time = 900 * minute;
    default_check_out_time = 660 * minute;
  };
  automation = record {
    pre_arrival_lead_minutes = 240;
    default_heating_target_c = degrees 22;
    default_cooling_target_c = degrees 24;
    vacant_heating_setback_c = degrees 16;
    occupied_minimum_target_c = degrees 18;
    occupied_maximum_target_c = degrees 26;
    manual_override_max_minutes = 720;
    turn_on_water_heater_pre_arrival = true;
    enable_convectors_pre_arrival = false;
  };
}

abbrev pub room_101 : Room
room_101 = record {
  key = "r101";
  name = "Room 101";
  entrance_key = "a";
  clock_room_id = some "101";
  g301 = some 1;
  enabled = true;
}

abbrev pub stay : BookingStatus → ℕ → ℕ → NormalizedBooking
stay status arrival departure = record {
  property_id = "p";
  clock_booking_id = "b1";
  booking_status = status;
  source_booking_status = "status";
  arrival_date = arrival;
  departure_date = departure;
  physical_room_id = some "101";
  physical_room_number = none;
  payload_hash = "hash";
  needs_attention = false;
  attention_reason = AttentionReason.no_reason;
}

abbrev pub guest : NormalizedBooking
guest = stay BookingStatus.checked_in 9 12

abbrev pub next_guest : NormalizedBooking
next_guest = stay BookingStatus.expected 12 14

abbrev pub early_guest : NormalizedBooking
early_guest = stay BookingStatus.expected 11 13

-- Day 10 at noon.
abbrev pub noon : DateTime
noon = hotel_time zone (10 * day + 720 * minute)

-- Until two o'clock.
abbrev pub override_until_two : ManualOverride
override_until_two = record {
  control_mode = ControlMode.manual;
  clock_booking_id = none;
  hvac_mode = ManualHvacMode.cool;
  target_temperature_c = some (degrees 20);
  water_heater_enabled = some true;
  expires_at = some (hotel_time zone (10 * day + 840 * minute));
  checkout_at = none;
  until_checkout = false;
  command_id = 7;
}

abbrev pub two_stays : List NormalizedBooking
two_stays = guest ∷ next_guest ∷ []

abbrev clashing_stays : List NormalizedBooking
clashing_stays = guest ∷ early_guest ∷ []

evaluate_room_in_house_example :
    let r = evaluate_room room_101 two_stays noon hotel none in
    (b : NormalizedBooking) × (r.booking ≡ some b)
    × (is_checked_in b.booking_status ≡ true)
    × Any (λ y. y ≡ b) (active_bookings_for_room room_101 two_stays (date_of noon))
    × All
        (λ y.
          is_checked_in y.booking_status ≡ true
          → (checkout_at b hotel).wall ≤ (checkout_at y hotel).wall)
        (active_bookings_for_room room_101 two_stays (date_of noon))
    × (r.phase ≡ (
        if overrides none noon b
        then AutomationPhase.manual_override
        else if not_after (checkout_at b hotel) noon
        then AutomationPhase.checkout_due
        else AutomationPhase.occupied))
unfolding points_at_unknown is_candidate bookings_overlap
evaluate_room_in_house_example =
    evaluate_room_in_house room_101 two_stays noon hotel none refl (refl, (refl, tt))
      ((refl, tt), (tt, tt)) (inl refl)

evaluate_room-conflict_iff_example :
    ((evaluate_room room_101 clashing_stays noon hotel none).phase ≡ AutomationPhase.conflict) ↔ (
      NoUnknown room_101 clashing_stays
      × ¬ Apart (active_bookings_for_room room_101 clashing_stays (date_of noon)))
evaluate_room-conflict_iff_example =
    evaluate_room-conflict_iff room_101 clashing_stays noon hotel none refl

abbrev left_stays : List NormalizedBooking
left_stays = stay BookingStatus.checked_out 9 12 ∷ []

evaluate_room-vacant_iff_example :
    ((evaluate_room room_101 left_stays noon hotel none).phase ≡ AutomationPhase.vacant)
    ↔ (NoUnknown room_101 left_stays × All (λ b. IsStay room_101 (date_of noon) b → ⊥) left_stays)
evaluate_room-vacant_iff_example = evaluate_room-vacant_iff room_101 left_stays noon hotel none refl

select_relevant_booking-Choice_example :
    ((two_stays ≡ []) × (select_relevant_booking two_stays noon hotel ≡ none))
    ⊎ ((m : NormalizedBooking) × (select_relevant_booking two_stays noon hotel ≡ some m)
        × IsChosen hotel two_stays m)
select_relevant_booking-Choice_example = select_relevant_booking-Choice hotel two_stays noon

-- The override rules the room at noon.
ruled :
    (evaluate_room room_101 two_stays noon hotel (some override_until_two)).phase
    ≡ AutomationPhase.manual_override
unfolding evaluate_room evaluate_enabled evaluate_candidates evaluate_conflict_free
    evaluate_selected select_relevant_booking earliest first_conflict points_at_unknown is_candidate
    bookings_overlap is_active
ruled = refl

evaluate_room-manual_override_example :
    (o : ManualOverride) × (b : NormalizedBooking) × (some override_until_two ≡ some o)
    × ((evaluate_room room_101 two_stays noon hotel (some override_until_two)).booking ≡ some b)
    × Any (λ y. y ≡ b) (active_bookings_for_room room_101 two_stays (date_of noon))
    × (is_active o noon (some b.clock_booking_id) ≡ true)
evaluate_room-manual_override_example =
    evaluate_room-manual_override room_101 two_stays noon hotel (some override_until_two) refl ruled

-- A room that the registry does not name in Clock, and a booking that no room is assigned to.
abbrev annex : Room
annex = record room_101 { clock_room_id = none }

abbrev stray : NormalizedBooking
stray = record guest {
  booking_status = BookingStatus.unknown;
  physical_room_id = none;
  needs_attention = true;
}

evaluate_room_unassigned_unknown_example :
    (evaluate_room annex (stray ∷ []) noon hotel none).phase ≡ AutomationPhase.unknown
evaluate_room_unassigned_unknown_example =
    evaluate_room_unassigned_unknown annex stray (stray ∷ []) noon hotel none refl refl refl refl
      (inl refl)

abbrev registry : RoomRegistry
registry = record {
  property_key = "p";
  entrances =
      record {
        key = "a";
        name = "A";
        gateway_host = some "10.0.0.2";
        gateway_port = some 502;
        enabled = true;
      }
      ∷ [];
  rooms =
      room_101 ∷ record room_101 { key = "r102"; clock_room_id = some "102"; g301 = some 2 } ∷ [];
}

validate_registry_iff_example : (is_ok (validate_registry registry) ≡ true) ↔ IsWellFormed registry
validate_registry_iff_example = validate_registry_iff registry
