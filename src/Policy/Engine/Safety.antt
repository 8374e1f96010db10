-- ===== src/Policy/Engine/Safety.antt =====
-- What a derived intent may switch on.
use clock_ha_orchestrator.Prelude.{
  ℕ, ◌≡◌, ◌⊎◌, Bool, true, false, not, ◌&&◌, ◌||◌, Option, none, some, arith,
}
use clock_ha_orchestrator.Prelude.Results.{ok}
use clock_ha_orchestrator.Domain.Enums.{AutomationPhase, ControlMode, ManualHvacMode, is_off}
use clock_ha_orchestrator.Domain.Temperature.{Float, at_most, is_nan}
use clock_ha_orchestrator.Domain.Models.{
  AutomationPolicy, HotelPolicy, ManualOverride, DesiredRoomIntent, RoomStateEvaluation,
  clamp_temperature,
}
use clock_ha_orchestrator.Policy.Engine.{is_suppressed, clamp_optional, is_true, derive_room_intent}

-- For real bounds in order the clamped value lies between them exactly when the value is a number:
-- not-a-number passes the clamp.
pub clamp_temperature_bounds :
    (p : AutomationPolicy) (value : Float)
    → at_most p.occupied_minimum_target_c p.occupied_maximum_target_c ≡ true
    → (at_most p.occupied_minimum_target_c (clamp_temperature p value)
        && at_most (clamp_temperature p value) p.occupied_maximum_target_c)
      ≡ not (is_nan value)
unfolding clamp_temperature
clamp_temperature_bounds p value h = ground arith

-- In a suppressed phase everything is off, whatever the override says.
pub derive_room_intent-suppressed :
    (state : RoomStateEvaluation) (policy : HotelPolicy) (override : Option ManualOverride) (id : ℕ)
    (i : DesiredRoomIntent)
    → is_suppressed state.phase ≡ true
    → derive_room_intent state policy override id ≡ ok (some i)
    → (i.control_mode ≡ ControlMode.off)
      × (i.hvac.enabled ≡ false)
      × (i.hvac.target_temperature_c ≡ none)
      × (i.water_heater ≡ false)
      × (i.convectors ≡ false)
unfolding derive_room_intent
derive_room_intent-suppressed state policy override id i s h = ground arith

-- While a guest is in the house, before and after the checkout time, the room is served: HVAC in
-- auto mode at the clamped default target, water heater and convectors on.
pub derive_room_intent_in_house :
    (state : RoomStateEvaluation) (policy : HotelPolicy) (override : Option ManualOverride) (id : ℕ)
    (i : DesiredRoomIntent)
    → (state.phase ≡ AutomationPhase.occupied) ⊎ (state.phase ≡ AutomationPhase.checkout_due)
    → derive_room_intent state policy override id ≡ ok (some i)
    → (i.control_mode ≡ ControlMode.automatic)
      × (i.hvac ≡ record {
        enabled = true;
        mode = ManualHvacMode.auto;
        target_temperature_c =
            some (clamp_temperature policy.automation policy.automation.default_heating_target_c);
      })
      × (i.water_heater ≡ true)
      × (i.convectors ≡ true)
unfolding derive_room_intent
derive_room_intent_in_house state policy override id i s h = ground arith

-- The phases in which hot water may be made.
abbrev pub heats_water : AutomationPhase → Bool
heats_water AutomationPhase.pre_arrival = true
heats_water AutomationPhase.occupied = true
heats_water AutomationPhase.checkout_due = true
heats_water AutomationPhase.manual_override = true
heats_water _ = false

-- The water heater and the convectors run only before an arrival, during a stay or by hand.
pub derive_room_intent-heats_water :
    (state : RoomStateEvaluation) (policy : HotelPolicy) (override : Option ManualOverride) (id : ℕ)
    (i : DesiredRoomIntent)
    → derive_room_intent state policy override id ≡ ok (some i)
    → (i.water_heater || i.convectors) ≡ true
    → heats_water state.phase ≡ true
unfolding derive_room_intent
derive_room_intent-heats_water state policy override id i h w = ground arith

-- An intent that an active override yields carries the override's own mode, water heater and
-- clamped target.
pub derive_room_intent-manual_override :
    (state : RoomStateEvaluation) (policy : HotelPolicy) (o : ManualOverride) (id : ℕ)
    (i : DesiredRoomIntent)
    → state.phase ≡ AutomationPhase.manual_override
    → derive_room_intent state policy (some o) id ≡ ok (some i)
    → (i.control_mode ≡ o.control_mode)
      × (i.hvac.mode ≡ o.hvac_mode)
      × (i.hvac.enabled ≡ not (is_off o.hvac_mode))
      × (i.hvac.target_temperature_c ≡ clamp_optional policy o.target_temperature_c)
      × (i.water_heater ≡ is_true o.water_heater_enabled)
unfolding derive_room_intent
derive_room_intent-manual_override state policy o id i s h = ground arith
