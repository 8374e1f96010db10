-- ===== src/Domain/StateMachine/Guarantees.antt =====
-- The guarantees that the rest of the program relies on when it reads a phase.
use clock_ha_orchestrator.Prelude.{
  ℕ, ◌≡◌, ◌≤◌, refl, ◌↔◌, ◌⊎◌, inl, inr, Bool, true, false, Option, none, some, List, [], ◌∷◌,
  if◌then◌else◌, All, Any, arith, Bool-cases, Option-cases,
}
use clock_ha_orchestrator.Domain.Enums.{AutomationPhase, BookingStatus, is_checked_in}
use clock_ha_orchestrator.Domain.Time.{DateTime, date_of, not_after}
use clock_ha_orchestrator.Domain.Models.{
  NormalizedBooking, HotelPolicy, Room, ManualOverride, active_for_automation, is_active,
}
use clock_ha_orchestrator.Domain.StateMachine.{
  is_candidate, active_bookings_for_room, points_at_unknown, overrides, checkout_at,
  evaluate_selected, evaluate_room,
}
use clock_ha_orchestrator.Domain.StateMachine.Selection.{Any-select, All-Any, IsChosen}
use clock_ha_orchestrator.Domain.StateMachine.Stays.{IsStay, no_booking_iff}
use clock_ha_orchestrator.Domain.StateMachine.Phases.{
  Apart, first_conflict_iff, is_regular, NoUnknown, candidates, unknown_status, clash, empty,
  chosen, evaluate_room-Verdict, evaluate_selected-regular,
}

candidate-active :
    (room : Room) (date : ℕ) (b : NormalizedBooking)
    → is_candidate room date b ≡ true
    → active_for_automation b ≡ true
unfolding is_candidate
candidate-active room date b h = ground arith

none_is :
    (p : NormalizedBooking → Bool) (xs : List NormalizedBooking)
    → All (λ y. p y ≡ false) xs
    → Any (λ y. p y ≡ true) xs
    → ⊥
none_is p [] a h = h
none_is p (x ∷ xs) a (inl h) = cc
none_is p (x ∷ xs) a (inr h) = none_is p xs a.1 h

evaluate_selected_in_house :
    (room : Room) (b : NormalizedBooking) (now : DateTime) (policy : HotelPolicy)
    (override : Option ManualOverride)
    → is_checked_in b.booking_status ≡ true
    → ((evaluate_selected room b now policy override).phase ≡ (
        if overrides override now b
        then AutomationPhase.manual_override
        else if not_after (checkout_at b policy) now
        then AutomationPhase.checkout_due
        else AutomationPhase.occupied))
      × ((evaluate_selected room b now policy override).booking ≡ some b)
unfolding evaluate_selected
evaluate_selected_in_house room b now policy override h =
    elim (Bool-cases (overrides override now b)) [
      | inl o ↦ rw (o, evaluate_selected) (refl, refl)
      | inr o ↦ elim (Bool-cases (not_after (checkout_at b policy) now)) [
        | inl l ↦ rw (o, evaluate_selected, h, l) (refl, refl)
        | inr l ↦ rw (o, evaluate_selected, h, l) (refl, refl)
      ]
    ]

evaluate_selected_override :
    (room : Room) (b : NormalizedBooking) (now : DateTime) (policy : HotelPolicy)
    (override : Option ManualOverride)
    → (evaluate_selected room b now policy override).phase ≡ AutomationPhase.manual_override
    → overrides override now b ≡ true
unfolding evaluate_selected
evaluate_selected_override room b now policy override h = ground arith

module _ (room : Room) (bookings : List NormalizedBooking) (now : DateTime) (policy : HotelPolicy)
    (override : Option ManualOverride) where
  chosen-regular :
      (b : NormalizedBooking)
      → IsChosen policy (candidates room bookings now policy override) b
      → (is_regular (evaluate_selected room b now policy override).phase ≡ true)
        × ((evaluate_selected room b now policy override).booking ≡ some b)
        × ((evaluate_selected room b now policy override).needs_attention ≡ false)
  chosen-regular b c = evaluate_selected-regular room b now policy override (
      candidate-active room (date_of now) b
        (Any-select (is_candidate room (date_of now)) b bookings c.given).1)

  -- An enabled room is reported vacant exactly when no booking of unknown status points at it and
  -- no expected or checked-in booking names the room and departs on the day or later; a booking names
  -- the room by the Clock id or the key of the room, if that is not empty, or by the key as its
  -- number.
  pub evaluate_room-vacant_iff :
      room.enabled ≡ true
      → ((evaluate_room room bookings now policy override).phase ≡ AutomationPhase.vacant)
        ↔ (NoUnknown room bookings × All (λ b. IsStay room (date_of now) b → ⊥) bookings)
  evaluate_room-vacant_iff on = (
    λ h. ((there h).0, (no_booking_iff room (date_of now) bookings).0 (there h).1),
    λ k. back (k.0, (no_booking_iff room (date_of now) bookings).1 k.1),
  )
    where
      there :
          (evaluate_room room bookings now policy override).phase ≡ AutomationPhase.vacant
          → NoUnknown room bookings × (active_bookings_for_room room bookings (date_of now) ≡ [])
      there h = elim (evaluate_room-Verdict room bookings now policy override on) [
        | unknown_status b m p n ↦ cc
        | clash b c f p n ↦ cc
        | empty c n p a ↦ (c, n)
        | chosen b c a i e ↦ ground (arith, chosen-regular b i)
      ]

      back :
          NoUnknown room bookings × (active_bookings_for_room room bookings (date_of now) ≡ [])
          → (evaluate_room room bookings now policy override).phase ≡ AutomationPhase.vacant
      back h = elim (evaluate_room-Verdict room bookings now policy override on) [
        | unknown_status b m p n ↦
            absurd
              (let f = All-Any (λ y. points_at_unknown room y ≡ false) b bookings h.0 m.0 in cc)
        | clash b c f p n ↦ absurd (
            let f' =
              (first_conflict_iff (candidates room bookings now policy override)).1 (rw h.1 tt) in
            cc)
        | empty c n p a ↦ p
        | chosen b c a i e ↦ absurd (rw h.1 at i.given)
      ]

  -- An enabled room is in conflict exactly when no booking of unknown status points at it and two
  -- of its candidates overlap.
  pub evaluate_room-conflict_iff :
      room.enabled ≡ true
      → ((evaluate_room room bookings now policy override).phase ≡ AutomationPhase.conflict)
        ↔ (NoUnknown room bookings × ¬ Apart (active_bookings_for_room room bookings (date_of now)))
  evaluate_room-conflict_iff on = (there, back)
    where
      there :
          (evaluate_room room bookings now policy override).phase ≡ AutomationPhase.conflict
          → NoUnknown room bookings × ¬ Apart (active_bookings_for_room room bookings (date_of now))
      there h = elim (evaluate_room-Verdict room bookings now policy override on) [
        | unknown_status b m p n ↦ cc
        | clash b c f p n ↦ (
          c,
          λ a.
              let f' =
                (first_conflict_iff (active_bookings_for_room room bookings (date_of now))).1 a in
              cc,
        )
        | empty c n p a ↦ cc
        | chosen b c a i e ↦ ground (arith, chosen-regular b i)
      ]

      back :
          NoUnknown room bookings × ¬ Apart (active_bookings_for_room room bookings (date_of now))
          → (evaluate_room room bookings now policy override).phase ≡ AutomationPhase.conflict
      back h = elim (evaluate_room-Verdict room bookings now policy override on) [
        | unknown_status b m p n ↦
            absurd
              (let f = All-Any (λ y. points_at_unknown room y ≡ false) b bookings h.0 m.0 in cc)
        | clash b c f p n ↦ p
        | empty c n p a ↦ absurd (h.1 (rw n tt))
        | chosen b c a i e ↦ absurd (h.1 a)
      ]

  -- Reception is alerted exactly for the phases unknown and conflict.
  pub evaluate_room-attention :
      room.enabled ≡ true
      → ((evaluate_room room bookings now policy override).needs_attention ≡ true) ↔ (
          ((evaluate_room room bookings now policy override).phase ≡ AutomationPhase.unknown)
          ⊎ ((evaluate_room room bookings now policy override).phase ≡ AutomationPhase.conflict))
  evaluate_room-attention on = elim (evaluate_room-Verdict room bookings now policy override on) [
    | unknown_status b m p n ↦ (λ _. inl p, λ _. n)
    | clash b c f p n ↦ (λ _. inr p, λ _. n)
    | empty c n p a ↦ (λ h. cc, λ h. ground arith)
    | chosen b c a i e ↦
        (λ h. ground (arith, chosen-regular b i), λ h. ground (arith, chosen-regular b i))
  ]

  -- A guest who is in the house decides the phase of an enabled room without alarms: the booking
  -- behind the evaluation is a checked-in candidate with the earliest checkout, and the phase is the
  -- manual override, or else occupied before the checkout time and checkout due from it on.
  pub evaluate_room_in_house :
      room.enabled ≡ true
      → NoUnknown room bookings
      → Apart (active_bookings_for_room room bookings (date_of now))
      → Any
          (λ b. is_checked_in b.booking_status ≡ true)
          (active_bookings_for_room room bookings (date_of now))
      → let r = evaluate_room room bookings now policy override in
        (b : NormalizedBooking) × (r.booking ≡ some b)
        × (is_checked_in b.booking_status ≡ true)
        × Any (λ y. y ≡ b) (active_bookings_for_room room bookings (date_of now))
        × All
            (λ y.
              is_checked_in y.booking_status ≡ true
              → (checkout_at b policy).wall ≤ (checkout_at y policy).wall)
            (active_bookings_for_room room bookings (date_of now))
        × (r.phase ≡ (
            if overrides override now b
            then AutomationPhase.manual_override
            else if not_after (checkout_at b policy) now
            then AutomationPhase.checkout_due
            else AutomationPhase.occupied))
  evaluate_room_in_house on clear apart guest =
      elim (evaluate_room-Verdict room bookings now policy override on) [
        | unknown_status b m p n ↦
            absurd
              (let f = All-Any (λ y. points_at_unknown room y ≡ false) b bookings clear m.0 in cc)
        | clash b c f p n ↦ absurd (
            let f' =
              (first_conflict_iff (active_bookings_for_room room bookings (date_of now))).1 apart in
            cc)
        | empty c n p a ↦ absurd (rw n at guest)
        | chosen b c a i e ↦ elim (Bool-cases (is_checked_in b.booking_status)) [
          | inl here ↦
              let (phase, about) = evaluate_selected_in_house room b now policy override here in
              rw e (b, about, here, i.given, i.leaves_first here, phase)
          | inr away ↦ absurd (
              none_is _ (active_bookings_for_room room bookings (date_of now)) (i.prefers away)
                guest)
        ]
      ]

  -- A manual override rules a room only while it is active for the booking behind the evaluation.
  pub evaluate_room-manual_override :
      room.enabled ≡ true
      → (evaluate_room room bookings now policy override).phase ≡ AutomationPhase.manual_override
      → (o : ManualOverride) × (b : NormalizedBooking) × (override ≡ some o)
        × ((evaluate_room room bookings now policy override).booking ≡ some b)
        × Any (λ y. y ≡ b) (active_bookings_for_room room bookings (date_of now))
        × (is_active o now (some b.clock_booking_id) ≡ true)
  evaluate_room-manual_override on h =
      elim (evaluate_room-Verdict room bookings now policy override on) [
        | unknown_status b m p n ↦ cc
        | clash b c f p n ↦ cc
        | empty c n p a ↦ cc
        | chosen b c a i e ↦
            active b i e (Option-cases override)
              (evaluate_selected_override room b now policy override (rw e at h))
      ]
    where
      active :
          (b : NormalizedBooking)
          → IsChosen policy (candidates room bookings now policy override) b
          → evaluate_room room bookings now policy override
            ≡ evaluate_selected room b now policy override
          → (override ≡ none) ⊎ ((o : ManualOverride) × (override ≡ some o))
          → overrides override now b ≡ true
          → (o : ManualOverride) × (b : NormalizedBooking) × (override ≡ some o)
            × ((evaluate_room room bookings now policy override).booking ≡ some b)
            × Any (λ y. y ≡ b) (active_bookings_for_room room bookings (date_of now))
            × (is_active o now (some b.clock_booking_id) ≡ true)
      active b i e (inl n) t = absurd (ground arith)
      active b i e (inr (o, s)) t =
          (o, b, s, ground (arith, chosen-regular b i), i.given, ground arith)

-- A booking of unknown status that has no physical room stops every enabled room that has no Clock
-- room id: the comparison of the two missing ids holds.
pub evaluate_room_unassigned_unknown :
    (room : Room) (b : NormalizedBooking) (bookings : List NormalizedBooking) (now : DateTime)
    (policy : HotelPolicy) (override : Option ManualOverride)
    → room.enabled ≡ true
    → room.clock_room_id ≡ none
    → b.booking_status ≡ BookingStatus.unknown
    → b.physical_room_id ≡ none
    → Any (λ y. y ≡ b) bookings
    → (evaluate_room room bookings now policy override).phase ≡ AutomationPhase.unknown
evaluate_room_unassigned_unknown room b bookings now policy override on ids st ph m =
    elim (evaluate_room-Verdict room bookings now policy override on) [
      | unknown_status c w p n ↦ p
      | clash c w f p n ↦ absurd (hidden w)
      | empty w n p a ↦ absurd (hidden w)
      | chosen c w a i e ↦ absurd (hidden w)
    ]
  where
    points : points_at_unknown room b ≡ true
    points = unfold points_at_unknown in ground arith

    hidden : NoUnknown room bookings → ⊥
    hidden w =
        let f = All-Any (λ y. points_at_unknown room y ≡ false) b bookings w m in
        let g = points in cc
