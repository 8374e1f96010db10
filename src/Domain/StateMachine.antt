-- ===== src/Domain/StateMachine.antt =====
-- app/domain/state_machine.py: from the bookings of a room to its automation phase.
pub mod Selection
pub mod Stays
pub mod Phases
pub mod Guarantees
pub mod Windows
pub mod Single
use clock_ha_orchestrator.Prelude.{
  ℕ, zero, suc, ◌+◌, ◌-◌, ◌*◌, Bool, true, false, not, ◌&&◌, ◌||◌, Option, none, some, List, [],
  ◌∷◌, String, str_eq, ltb, leb, ◌==◌, if◌then◌else◌, opt_str_eq, truthy, any, select, sorted_by,
}
use clock_ha_orchestrator.Domain.Enums.{
  BookingStatus, AutomationPhase, AttentionReason, is_expected, is_checked_in, is_unknown,
}
use clock_ha_orchestrator.Domain.Time.{DateTime, minute, before, not_after, combine, minus, date_of}
use clock_ha_orchestrator.Domain.Models.{
  NormalizedBooking, has_physical_room, active_for_automation, Room, HotelPolicy, ManualOverride,
  is_active, RoomStateEvaluation,
}

abbrev pub arrival_at : NormalizedBooking → HotelPolicy → DateTime
arrival_at b policy =
    combine policy.property.tzinfo b.arrival_date policy.property.default_check_in_time

abbrev pub checkout_at : NormalizedBooking → HotelPolicy → DateTime
checkout_at b policy =
    combine policy.property.tzinfo b.departure_date policy.property.default_check_out_time

-- `arrival_at(booking, policy) - timedelta(minutes=policy.automation.pre_arrival_lead_minutes)`
abbrev pub lead_start : NormalizedBooking → HotelPolicy → DateTime
lead_start b policy =
    minus policy.property.tzinfo (arrival_at b policy)
      (policy.automation.pre_arrival_lead_minutes * minute)

unfoldable pub bookings_overlap : NormalizedBooking → NormalizedBooking → Bool
bookings_overlap left right =
    ltb left.arrival_date right.departure_date && ltb right.arrival_date left.departure_date

-- `value in {v for v in (room.clock_room_id, room.key) if v}`
abbrev pub in_room_ids : Room → Option String → Bool
in_room_ids room none = false
in_room_ids room (some id) =
    (truthy room.clock_room_id && opt_str_eq (some id) room.clock_room_id)
    || (truthy (some room.key) && str_eq id room.key)

-- The tests that let a booking pass through the loop of `active_bookings_for_room`.
unfoldable pub is_candidate : Room → ℕ → NormalizedBooking → Bool
is_candidate room on_date b =
    active_for_automation b
    && (in_room_ids room b.physical_room_id || opt_str_eq b.physical_room_number (some room.key))
    && leb on_date b.departure_date

abbrev pub active_bookings_for_room : Room → List NormalizedBooking → ℕ → List NormalizedBooking
active_bookings_for_room room bookings on_date = select (is_candidate room on_date) bookings

unfoldable pub approaching_unassigned_arrivals :
    List NormalizedBooking → DateTime → HotelPolicy → List NormalizedBooking
approaching_unassigned_arrivals bookings now policy =
    select
      (λ b.
        is_expected b.booking_status
        && not (has_physical_room b)
        && not_after (lead_start b policy) now)
      bookings

unfoldable pub evaluate_unassigned_booking :
    NormalizedBooking → DateTime → HotelPolicy → Option RoomStateEvaluation
evaluate_unassigned_booking b now policy =
    if not (is_expected b.booking_status) || has_physical_room b
    then none
    else if not_after (lead_start b policy) now
    then some (record {
      room_key = none;
      phase = AutomationPhase.awaiting_assignment;
      booking = some b;
      needs_attention = true;
      attention_reason = AttentionReason.missing_physical_room;
      reason = "expected_arrival_inside_preparation_window_without_physical_room";
      effective_from = now;
      expires_at = some (checkout_at b policy);
    })
    else none

-- A booking of unknown status that points at the room. `None == None` holds, as in the source.
unfoldable pub points_at_unknown : Room → NormalizedBooking → Bool
points_at_unknown room b =
    is_unknown b.booking_status
    && (opt_str_eq b.physical_room_id room.clock_room_id
        || opt_str_eq b.physical_room_number (some room.key))

abbrev pub unknown_bookings : Room → List NormalizedBooking → List NormalizedBooking
unknown_bookings room bookings = select (points_at_unknown room) bookings

-- The double loop over the candidates: the first booking that overlaps a later one.
unfoldable pub first_conflict : List NormalizedBooking → Option NormalizedBooking
first_conflict [] = none
first_conflict (left ∷ rest) =
    if any (bookings_overlap left) rest then some left else first_conflict rest

abbrev pub first {ℓ} : {A : Type ℓ} → List A → Option A
first [] = none
first (x ∷ _) = some x

-- `sorted(bookings, key=...)[0]`, of bookings that are not none: the wall clocks of two datetimes of
-- one zone order them.
unfoldable pub earliest :
    (NormalizedBooking → DateTime) → List NormalizedBooking → Option NormalizedBooking
earliest key bookings = first (sorted_by (λ b. (key b).wall) bookings)

abbrev pub or_else {ℓ} : {A : Type ℓ} → Option A → Option A → Option A
or_else none other = other
or_else (some a) _ = some a

-- The first choice that is not empty: checked in, expected, any.
unfoldable pub select_relevant_booking :
    List NormalizedBooking → DateTime → HotelPolicy → Option NormalizedBooking
select_relevant_booking bookings now policy =
    or_else
      (earliest (λ b. checkout_at b policy) (select (λ b. is_checked_in b.booking_status) bookings))
      (or_else
        (earliest (λ b. arrival_at b policy) (select (λ b. is_expected b.booking_status) bookings))
        (first (sorted_by (λ b. b.arrival_date) bookings)))

-- A `RoomStateEvaluation` of the room, with the fields that the call leaves to their defaults.
abbrev calm :
    Room
    → AutomationPhase
    → Option NormalizedBooking
    → String
    → DateTime
    → Option DateTime
    → RoomStateEvaluation
calm room phase booking reason effective_from expires_at = record {
  room_key = some room.key;
  phase = phase;
  booking = booking;
  needs_attention = false;
  attention_reason = AttentionReason.no_reason;
  reason = reason;
  effective_from = effective_from;
  expires_at = expires_at;
}

abbrev alarming :
    Room
    → AutomationPhase
    → NormalizedBooking
    → AttentionReason
    → String
    → DateTime
    → RoomStateEvaluation
alarming room phase booking why reason effective_from = record {
  room_key = some room.key;
  phase = phase;
  booking = some booking;
  needs_attention = true;
  attention_reason = why;
  reason = reason;
  effective_from = effective_from;
  expires_at = none;
}

-- `override and override.is_active(now, clock_booking_id=selected.clock_booking_id)`
abbrev pub overrides : Option ManualOverride → DateTime → NormalizedBooking → Bool
overrides none now b = false
overrides (some o) now b = is_active o now (some b.clock_booking_id)

abbrev override_expiry : Option ManualOverride → Option DateTime
override_expiry none = none
override_expiry (some o) = o.expires_at

-- The part of `evaluate_room` behind the choice of a booking.
unfoldable pub evaluate_selected :
    Room → NormalizedBooking → DateTime → HotelPolicy → Option ManualOverride → RoomStateEvaluation
evaluate_selected room b now policy override =
    if overrides override now b
    then calm room AutomationPhase.manual_override (some b) "valid_manual_override_active" now
        (override_expiry override)
    else if is_checked_in b.booking_status
    then if not_after (checkout_at b policy) now
      then calm room AutomationPhase.checkout_due (some b)
          "departure_time_passed_without_clock_checkout" now none
      else calm room AutomationPhase.occupied (some b) "clock_reports_guest_checked_in" now
          (some (checkout_at b policy))
    else if is_expected b.booking_status
    then if not_after (lead_start b policy) now
      then calm room AutomationPhase.pre_arrival (some b)
          "expected_arrival_inside_preparation_window" (lead_start b policy)
          (some (checkout_at b policy))
      else calm room AutomationPhase.reserved (some b)
          "future_assigned_reservation_outside_preparation_window" now (some (lead_start b policy))
    else calm room AutomationPhase.vacant (some b) "booking_inactive_for_automation" now none

-- The stages of `evaluate_room`, from the last to the first.
unfoldable pub evaluate_conflict_free :
    Room
    → List NormalizedBooking
    → DateTime
    → HotelPolicy
    → Option ManualOverride
    → RoomStateEvaluation
unfolding evaluate_selected
evaluate_conflict_free room candidates now policy override =
    elim (select_relevant_booking candidates now policy) [
      | none ↦ calm room AutomationPhase.vacant none "no_active_assigned_reservation" now none
      | some b ↦ evaluate_selected room b now policy override
    ]

unfoldable pub evaluate_candidates :
    Room
    → List NormalizedBooking
    → DateTime
    → HotelPolicy
    → Option ManualOverride
    → RoomStateEvaluation
unfolding evaluate_conflict_free
evaluate_candidates room candidates now policy override = elim (first_conflict candidates) [
  | some left ↦
      alarming room AutomationPhase.conflict left AttentionReason.overlapping_active_bookings
        "overlapping_active_bookings_assigned_to_room" now
  | none ↦ evaluate_conflict_free room candidates now policy override
]

unfoldable pub evaluate_enabled :
    Room
    → List NormalizedBooking
    → DateTime
    → HotelPolicy
    → Option ManualOverride
    → RoomStateEvaluation
unfolding evaluate_candidates
evaluate_enabled room bookings now policy override = elim (first (unknown_bookings room bookings)) [
  | some b ↦
      alarming room AutomationPhase.unknown b AttentionReason.unknown_clock_status
        "unknown_clock_status_suppresses_automatic_actions" now
  | none ↦
      evaluate_candidates room (active_bookings_for_room room bookings (date_of now)) now policy
        override
]

unfoldable pub evaluate_room :
    Room
    → List NormalizedBooking
    → DateTime
    → HotelPolicy
    → Option ManualOverride
    → RoomStateEvaluation
unfolding evaluate_enabled
evaluate_room room bookings now policy override =
    if not room.enabled
    then calm room AutomationPhase.disabled none "room_disabled_by_configuration" now none
    else evaluate_enabled room bookings now policy override
