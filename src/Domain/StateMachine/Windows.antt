-- ===== src/Domain/StateMachine/Windows.antt =====
-- The validity windows of evaluations, which `DesiredRoomIntent` later checks.
use clock_ha_orchestrator.Prelude.{
  ◌≡◌, ◌<◌, refl, ◌⊎◌, inl, inr, true, false, Option, none, some, List, [], ◌∷◌, All, arith, String,
  str_eq, Bool-cases, Option-cases, List-cases,
}
use clock_ha_orchestrator.Domain.Enums.{is_checked_in, is_expected}
use clock_ha_orchestrator.Domain.Time.{DateTime, day, date_of, not_after}
use clock_ha_orchestrator.Domain.Models.{
  NormalizedBooking, HotelPolicy, Room, ManualOverride, RoomStateEvaluation, is_active,
  ends_before_start,
}
use clock_ha_orchestrator.Domain.StateMachine.{
  is_candidate, active_bookings_for_room, unknown_bookings, first_conflict, overrides, arrival_at,
  checkout_at, lead_start, evaluate_selected, evaluate_conflict_free, evaluate_candidates,
  evaluate_enabled, evaluate_room,
}
use clock_ha_orchestrator.Domain.StateMachine.Selection.{
  Any-select, All-Any, select_relevant_booking-Choice,
}

-- The times of day of the policy, and the clock of the hotel at which a room is evaluated.
pub record IsDaily (policy : HotelPolicy) : Type 0 where
  pub check_in_in_day : policy.property.default_check_in_time < day
  pub check_out_in_day : policy.property.default_check_out_time < day

-- A stay of at least one night.
abbrev pub Overnight : NormalizedBooking → Type 0
Overnight b = b.arrival_date < b.departure_date

-- An override that lasts until the checkout has no expiry time, as `control.py` writes it.
abbrev pub IsTimed : Option ManualOverride → Type 0
IsTimed none = Unit
IsTimed (some o) = o.until_checkout ≡ true → o.expires_at ≡ none

-- What the validators of an intent ask of the evaluation behind it.
pub record IsPublishable (room : Room) (r : RoomStateEvaluation) : Type 0 where
  pub keyed : r.room_key ≡ some room.key
  pub explained : str_eq r.reason "" ≡ false
  pub windowed : ends_before_start r.effective_from r.expires_at ≡ false

arrival_before_checkout :
    (b : NormalizedBooking) (policy : HotelPolicy)
    → IsDaily policy
    → Overnight b
    → (arrival_at b policy).wall < (checkout_at b policy).wall
arrival_before_checkout b policy d o = omega (arith, d.check_in_in_day)

active-window :
    (o : ManualOverride) (now : DateTime) (id : Option String)
    → IsTimed (some o)
    → is_active o now id ≡ true
    → ends_before_start now o.expires_at ≡ false
unfolding is_active
active-window o now id t h = ground arith

module _ (room : Room) (now : DateTime) (policy : HotelPolicy) (override : Option ManualOverride)
    (daily : IsDaily policy) (timed : IsTimed override) where
  selected-IsPublishable :
      (b : NormalizedBooking)
      → Overnight b
      → IsPublishable room (evaluate_selected room b now policy override)
  unfolding evaluate_selected
  selected-IsPublishable b o = elim (Bool-cases (overrides override now b)) [
    | inl on ↦
        rw (on, evaluate_selected)
          (record { keyed = refl; explained = refl; windowed = window override timed on })
    | inr off ↦ elim (Bool-cases (is_checked_in b.booking_status)) [
      | inl here ↦ elim (Bool-cases (not_after (checkout_at b policy) now)) [
        | inl late ↦
            rw (off, evaluate_selected, here, late)
              (record { keyed = refl; explained = refl; windowed = refl })
        | inr early ↦
            rw (off, evaluate_selected, here, early)
              (record { keyed = refl; explained = refl; windowed = early })
      ]
      | inr away ↦ elim (Bool-cases (is_expected b.booking_status)) [
        | inl comes ↦ elim (Bool-cases (not_after (lead_start b policy) now)) [
          | inl soon ↦
              rw (off, evaluate_selected, away, comes, soon)
                (record {
                  keyed = refl;
                  explained = refl;
                  windowed = ground (arith, arrival_before_checkout b policy daily o);
                })
          | inr later ↦
              rw (off, evaluate_selected, away, comes, later)
                (record { keyed = refl; explained = refl; windowed = later })
        ]
        | inr gone ↦
            rw (off, evaluate_selected, away, gone)
              (record { keyed = refl; explained = refl; windowed = refl })
      ]
    ]
  ]
    where
      window :
          (r : Option ManualOverride)
          → IsTimed r
          → overrides r now b ≡ true
          → ends_before_start now (elim r [ none ↦ none | some m ↦ m.expires_at ]) ≡ false
      window none t h = cc
      window (some m) t h = active-window m now (some b.clock_booking_id) t h

  -- Every evaluation can be published: it names the room, gives a reason and has a window that ends
  -- after it begins, if each booking stays at least one night and the policy's times lie in a day.
  pub evaluate_room-IsPublishable :
      (bookings : List NormalizedBooking)
      → All Overnight bookings
      → IsPublishable room (evaluate_room room bookings now policy override)
  unfolding evaluate_room evaluate_enabled evaluate_candidates evaluate_conflict_free
  evaluate_room-IsPublishable bookings nights = elim (Bool-cases room.enabled) [
    | inr off ↦ simp off (record { keyed = refl; explained = refl; windowed = refl })
    | inl on ↦ simp on (enabled (List-cases (unknown_bookings room bookings)))
  ]
    where
      cands : List NormalizedBooking
      cands = active_bookings_for_room room bookings (date_of now)

      clear : IsPublishable room (evaluate_conflict_free room cands now policy override)
      clear = elim (select_relevant_booking-Choice policy cands now) [
        | inl (n, e) ↦
            rw (e, evaluate_conflict_free)
              (record { keyed = refl; explained = refl; windowed = refl })
        | inr (m, e, c) ↦
            rw (e, evaluate_conflict_free)
              (selected-IsPublishable m (
                All-Any Overnight m bookings nights
                  (Any-select (is_candidate room (date_of now)) m bookings c.given).0))
      ]

      enabled :
          (unknown_bookings room bookings ≡ [])
            ⊎ ((b : NormalizedBooking) × (r : List NormalizedBooking) × (unknown_bookings room
                    bookings
                  ≡ b ∷ r))
          → IsPublishable room (evaluate_enabled room bookings now policy override)
      enabled (inr (b, r, e)) =
          rw (e, evaluate_enabled) (record { keyed = refl; explained = refl; windowed = refl })
      enabled (inl e) = elim (Option-cases (first_conflict cands)) [
        | inr (b, f) ↦
            rw (e, evaluate_enabled, f, evaluate_candidates)
              (record { keyed = refl; explained = refl; windowed = refl })
        | inl f ↦ rw (e, evaluate_enabled, f, evaluate_candidates) clear
      ]
