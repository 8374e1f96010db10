-- ===== src/Policy/Engine/Totality.antt =====
-- The engine never raises on what the state machine gives it, but for stays of no night.
use clock_ha_orchestrator.Prelude.{
  ℕ, ◌≡◌, ◌≤◌, refl, true, false, List, [], ◌∷◌, Option, none, some, String, str_eq, All, arith,
}
use clock_ha_orchestrator.Prelude.Results.{err, is_ok}
use clock_ha_orchestrator.Domain.Enums.{AutomationPhase, ManualHvacMode, is_expected}
use clock_ha_orchestrator.Domain.Time.{DateTime, date_of, not_after}
use clock_ha_orchestrator.Domain.Temperature.{Float}
use clock_ha_orchestrator.Domain.Models.{
  HotelPolicy, Room, NormalizedBooking, ManualOverride, RoomStateEvaluation, ends_before_start,
  intent_window,
}
use clock_ha_orchestrator.Domain.StateMachine.{
  is_candidate, lead_start, checkout_at, evaluate_selected, evaluate_room,
}
use clock_ha_orchestrator.Domain.StateMachine.Single.{
  evaluate_room_single, evaluate_selected-pre_arrival,
}
use clock_ha_orchestrator.Domain.StateMachine.Windows.{
  IsDaily, IsTimed, Overnight, IsPublishable, evaluate_room-IsPublishable,
}
use clock_ha_orchestrator.Policy.Engine.{derive_room_intent}

-- An override that switches the HVAC on names a target, and one that leaves it off names none.
abbrev pub Coherent : ManualHvacMode → Option Float → Type 0
Coherent ManualHvacMode.off none = Unit
Coherent ManualHvacMode.off (some _) = ⊥
Coherent _ none = ⊥
Coherent _ (some _) = Unit

abbrev pub IsCoherent : Option ManualOverride → Type 0
IsCoherent none = Unit
IsCoherent (some o) = Coherent o.hvac_mode o.target_temperature_c

derive-ok :
    (room : Room) (state : RoomStateEvaluation) (policy : HotelPolicy)
    (override : Option ManualOverride) (id : ℕ)
    → str_eq room.key "" ≡ false
    → IsCoherent override
    → IsPublishable room state
    → is_ok (derive_room_intent state policy override id) ≡ true
unfolding derive_room_intent
derive-ok room state policy override id k c p = ground arith

-- Evaluating a room and deriving its intent never raises, if every booking stays at least one
-- night, the room has a key, the times of the policy lie in a day, and an override, if there is
-- one, has a target exactly if it does not switch the HVAC off, and no expiry time if it lasts
-- until the checkout.
pub derive_room_intent_total :
    (room : Room) (bookings : List NormalizedBooking) (now : DateTime) (policy : HotelPolicy)
    (override : Option ManualOverride) (id : ℕ)
    → str_eq room.key "" ≡ false
    → All Overnight bookings
    → IsDaily policy
    → IsTimed override
    → IsCoherent override
    → is_ok
        (derive_room_intent (evaluate_room room bookings now policy override) policy override id)
      ≡ true
derive_room_intent_total room bookings now policy override id k nights daily timed c =
    derive-ok room (evaluate_room room bookings now policy override) policy override id k c
      (evaluate_room-IsPublishable room now policy override daily timed bookings nights)

derive-err :
    (state : RoomStateEvaluation) (policy : HotelPolicy) (id : ℕ) (key : String)
    → state.room_key ≡ some key
    → str_eq key "" ≡ false
    → str_eq state.reason "" ≡ false
    → state.phase ≡ AutomationPhase.pre_arrival
    → ends_before_start state.effective_from state.expires_at ≡ true
    → derive_room_intent state policy none id ≡ err intent_window
unfolding derive_room_intent
derive-err state policy id key r k e p w = ground arith

-- For an enabled room with a key whose one booking is an expected candidate, deriving the intent
-- raises from the start of the preparation window on, if the checkout time is not after that start.
-- With the defaults, 15:00 less four hours against 11:00, these are the bookings that arrive and
-- depart on one day.
pub derive_room_intent_day_use :
    (room : Room) (b : NormalizedBooking) (now : DateTime) (policy : HotelPolicy) (id : ℕ)
    → room.enabled ≡ true
    → str_eq room.key "" ≡ false
    → is_expected b.booking_status ≡ true
    → is_candidate room (date_of now) b ≡ true
    → not_after (lead_start b policy) now ≡ true
    → (checkout_at b policy).wall ≤ (lead_start b policy).wall
    → derive_room_intent (evaluate_room room (b ∷ []) now policy none) policy none id
      ≡ err intent_window
derive_room_intent_day_use room b now policy id on k h c l late =
    let (phase, keyed, why, from, until) = evaluate_selected-pre_arrival room b now policy h l in
    rw (evaluate_room_single room b now policy none on h c) (
      derive-err (evaluate_selected room b now policy none) policy id room.key keyed k (rw why refl)
        phase (rw (from, until) (ground arith)))
