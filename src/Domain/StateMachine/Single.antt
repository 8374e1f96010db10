-- ===== src/Domain/StateMachine/Single.antt =====
-- A room with one booking.
use clock_ha_orchestrator.Prelude.{◌≡◌, refl, true, false, [], ◌∷◌, Option, none, some, arith}
use clock_ha_orchestrator.Domain.Enums.{is_expected, is_checked_in}
use clock_ha_orchestrator.Domain.Time.{DateTime, date_of, not_after}
use clock_ha_orchestrator.Domain.Models.{NormalizedBooking, HotelPolicy, Room, ManualOverride}
use clock_ha_orchestrator.Domain.StateMachine.{
  is_candidate, points_at_unknown, first_conflict, select_relevant_booking, earliest,
  evaluate_selected, evaluate_conflict_free, evaluate_candidates, evaluate_enabled, evaluate_room,
  lead_start, checkout_at,
}
use clock_ha_orchestrator.Domain.Enums.{AutomationPhase}

module _ (room : Room) (b : NormalizedBooking) (now : DateTime) (policy : HotelPolicy)
    (override : Option ManualOverride) where
  pub select_relevant_booking_single :
      is_expected b.booking_status ≡ true → select_relevant_booking (b ∷ []) now policy ≡ some b
  unfolding select_relevant_booking earliest
  select_relevant_booking_single h = ground arith

  candidates_single :
      is_expected b.booking_status ≡ true
      → evaluate_candidates room (b ∷ []) now policy override
        ≡ evaluate_selected room b now policy override
  unfolding evaluate_candidates evaluate_conflict_free first_conflict
  candidates_single h = rw (select_relevant_booking_single h, evaluate_conflict_free)

  -- An expected booking that is the room's only one decides its evaluation.
  pub evaluate_room_single :
      room.enabled ≡ true
      → is_expected b.booking_status ≡ true
      → is_candidate room (date_of now) b ≡ true
      → evaluate_room room (b ∷ []) now policy override
        ≡ evaluate_selected room b now policy override
  unfolding evaluate_room evaluate_enabled
  evaluate_room_single on h c = simp on (rw (known, evaluate_enabled) (rw c (candidates_single h)))
    where
      known : points_at_unknown room b ≡ false
      known = unfold points_at_unknown in ground arith

-- The phase and the window of an expected booking inside its preparation window.
pub evaluate_selected-pre_arrival :
    (room : Room) (b : NormalizedBooking) (now : DateTime) (policy : HotelPolicy)
    → is_expected b.booking_status ≡ true
    → not_after (lead_start b policy) now ≡ true
    → let r = evaluate_selected room b now policy none in
      (r.phase ≡ AutomationPhase.pre_arrival)
      × (r.room_key ≡ some room.key)
      × (r.reason ≡ "expected_arrival_inside_preparation_window")
      × (r.effective_from ≡ lead_start b policy)
      × (r.expires_at ≡ some (checkout_at b policy))
unfolding evaluate_selected
evaluate_selected-pre_arrival room b now policy h l =
    simp (away, h, l) (refl, refl, refl, refl, refl)
  where
    away : is_checked_in b.booking_status ≡ false
    away = ground arith
