-- ===== src/Domain/StateMachine/Phases.antt =====
-- What the phase that `evaluate_room` reports says about the bookings of the room.
use clock_ha_orchestrator.Prelude.{
  ◌≡◌, refl, ◌↔◌, inl, inr, Bool, true, false, Option, none, some, List, [], ◌∷◌, any,
  any-false_iff, All, Any, arith, Bool-cases, Option-cases, List-cases,
}
use clock_ha_orchestrator.Domain.Enums.{AutomationPhase}
use clock_ha_orchestrator.Domain.Time.{DateTime, date_of}
use clock_ha_orchestrator.Domain.Models.{
  NormalizedBooking, HotelPolicy, Room, ManualOverride, RoomStateEvaluation, active_for_automation,
}
use clock_ha_orchestrator.Domain.StateMachine.{
  bookings_overlap, active_bookings_for_room, points_at_unknown, unknown_bookings, first_conflict,
  evaluate_selected, evaluate_conflict_free, evaluate_candidates, evaluate_enabled, evaluate_room,
}
use clock_ha_orchestrator.Domain.StateMachine.Selection.{
  Any-select, select-nil, IsChosen, select_relevant_booking-Choice,
}

-- No two bookings of the list overlap.
abbrev pub Apart : List NormalizedBooking → Type 0
Apart [] = Unit
Apart (b ∷ bs) = All (λ c. bookings_overlap b c ≡ false) bs × Apart bs

-- The double loop over the candidates reports no conflict exactly when no two of them overlap.
pub first_conflict_iff : (bs : List NormalizedBooking) → (first_conflict bs ≡ none) ↔ Apart bs
unfolding first_conflict
first_conflict_iff [] = (λ _. tt, λ _. refl)
first_conflict_iff (b ∷ bs) = elim (Bool-cases (any (bookings_overlap b) bs)) [
  | inl hit ↦ (λ e. ground arith, λ a. let f = (any-false_iff (bookings_overlap b) bs).1 a.0 in cc)
  | inr miss ↦ (
    λ e. ((any-false_iff (bookings_overlap b) bs).0 miss, (first_conflict_iff bs).0 (ground arith)),
    λ a. rw miss ((first_conflict_iff bs).1 a.1),
  )
]

-- The phases that a chosen booking can lead to.
abbrev pub is_regular : AutomationPhase → Bool
is_regular AutomationPhase.manual_override = true
is_regular AutomationPhase.occupied = true
is_regular AutomationPhase.checkout_due = true
is_regular AutomationPhase.pre_arrival = true
is_regular AutomationPhase.reserved = true
is_regular _ = false

pub evaluate_selected-regular :
    (room : Room) (b : NormalizedBooking) (now : DateTime) (policy : HotelPolicy)
    (o : Option ManualOverride)
    → active_for_automation b ≡ true
    → (is_regular (evaluate_selected room b now policy o).phase ≡ true)
      × ((evaluate_selected room b now policy o).booking ≡ some b)
      × ((evaluate_selected room b now policy o).needs_attention ≡ false)
unfolding evaluate_selected
evaluate_selected-regular room b now policy o h = ground arith

-- No booking of unknown status points at the room.
abbrev pub NoUnknown : Room → List NormalizedBooking → Type 0
NoUnknown room bookings = All (λ b. points_at_unknown room b ≡ false) bookings

module _ (room : Room) (bookings : List NormalizedBooking) (now : DateTime) (policy : HotelPolicy)
    (override : Option ManualOverride) where
  abbrev pub candidates : List NormalizedBooking
  candidates = active_bookings_for_room room bookings (date_of now)

  -- How an evaluation of an enabled room can end.
  pub data Verdict (r : RoomStateEvaluation) : Type 0 where
    unknown_status :
        (b : NormalizedBooking)
        → Any (λ y. y ≡ b) bookings × (points_at_unknown room b ≡ true)
        → r.phase ≡ AutomationPhase.unknown
        → r.needs_attention ≡ true
        → Verdict r
    clash :
        (b : NormalizedBooking)
        → NoUnknown room bookings
        → first_conflict candidates ≡ some b
        → r.phase ≡ AutomationPhase.conflict
        → r.needs_attention ≡ true
        → Verdict r
    empty :
        NoUnknown room bookings
        → candidates ≡ []
        → r.phase ≡ AutomationPhase.vacant
        → r.needs_attention ≡ false
        → Verdict r
    chosen :
        (b : NormalizedBooking)
        → NoUnknown room bookings
        → Apart candidates
        → IsChosen policy candidates b
        → r ≡ evaluate_selected room b now policy override
        → Verdict r

  candidates-Verdict :
      NoUnknown room bookings → Verdict (evaluate_candidates room candidates now policy override)
  unfolding evaluate_candidates evaluate_conflict_free
  candidates-Verdict clear = elim (Option-cases (first_conflict candidates)) [
    | inr (b, e) ↦ rw (e, evaluate_candidates) (clash b clear e refl refl)
    | inl e ↦ rw (e, evaluate_candidates) (apart ((first_conflict_iff candidates).0 e))
  ]
    where
      apart :
          Apart candidates → Verdict (evaluate_conflict_free room candidates now policy override)
      apart a = elim (select_relevant_booking-Choice policy candidates now) [
        | inl (n, e) ↦ rw (e, evaluate_conflict_free) (empty clear n refl refl)
        | inr (m, e, c) ↦ rw (e, evaluate_conflict_free) (chosen m clear a c refl)
      ]

  enabled-Verdict : Verdict (evaluate_enabled room bookings now policy override)
  unfolding evaluate_enabled
  enabled-Verdict = elim (List-cases (unknown_bookings room bookings)) [
    | inl e ↦
        rw (e, evaluate_enabled)
          (candidates-Verdict (select-nil (points_at_unknown room) bookings e))
    | inr (b, r, e) ↦
        rw (e, evaluate_enabled)
          (unknown_status b (Any-select (points_at_unknown room) b bookings (rw e (inl refl))) refl
            refl)
  ]

  -- Every evaluation of an enabled room is one of the four verdicts, in the order of their weight:
  -- unknown status, then conflict, then no candidate, then the chosen booking.
  pub evaluate_room-Verdict :
      room.enabled ≡ true → Verdict (evaluate_room room bookings now policy override)
  unfolding evaluate_room
  evaluate_room-Verdict on = simp on enabled-Verdict
