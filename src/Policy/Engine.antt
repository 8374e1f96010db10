-- ===== src/Policy/Engine.antt =====
-- app/policy/engine.py: from the evaluation of a room to the desired intent. The correlation id is
-- the one that the caller passes, or else the fresh one that pydantic's default makes.
pub mod Safety
pub mod Totality
use clock_ha_orchestrator.Prelude.{
  ℕ, Bool, true, false, not, ◌&&◌, ◌||◌, Option, none, some, String, if◌then◌else◌,
}
use clock_ha_orchestrator.Prelude.Results.{Result, ok, err, ◌>>=◌, ◌>>◌}
use clock_ha_orchestrator.Domain.Enums.{
  AutomationPhase, ControlMode, ManualHvacMode, is_off, is_manual_override,
}
use clock_ha_orchestrator.Domain.Time.{DateTime}
use clock_ha_orchestrator.Domain.Temperature.{Float}
use clock_ha_orchestrator.Domain.Models.{
  ValueError, HotelPolicy, ManualOverride, HvacIntent, validate_hvac_state, DesiredRoomIntent,
  validate_intent, RoomStateEvaluation, clamp_temperature,
}

-- `phase in SUPPRESS_AUTOMATION_PHASES`
abbrev pub is_suppressed : AutomationPhase → Bool
is_suppressed AutomationPhase.awaiting_assignment = true
is_suppressed AutomationPhase.conflict = true
is_suppressed AutomationPhase.disabled = true
is_suppressed AutomationPhase.unknown = true
is_suppressed _ = false

-- `HvacIntent(enabled=..., mode=..., target_temperature_c=...)`
abbrev pub hvac_intent : Bool → ManualHvacMode → Option Float → Result ValueError HvacIntent
hvac_intent enabled mode target =
    validate_hvac_state (record { enabled = enabled; mode = mode; target_temperature_c = target })

unfoldable pub build_intent :
    RoomStateEvaluation
    → String
    → ControlMode
    → HvacIntent
    → Bool
    → Bool
    → String
    → ℕ
    → Result ValueError DesiredRoomIntent
unfolding validate_intent
build_intent state room_key control_mode hvac water_heater convectors reason correlation_id =
    validate_intent (record {
      room_key = room_key;
      intent_version = 1;
      automation_phase = state.phase;
      control_mode = control_mode;
      effective_from = state.effective_from;
      expires_at = state.expires_at;
      hvac = hvac;
      water_heater = water_heater;
      convectors = convectors;
      reason = reason;
      correlation_id = correlation_id;
    })

-- `policy.automation.clamp_temperature(t) if t is not None else None`
abbrev pub clamp_optional : HotelPolicy → Option Float → Option Float
clamp_optional policy none = none
clamp_optional policy (some t) = some (clamp_temperature policy.automation t)

-- `bool(value)` of a `bool | None`
abbrev pub is_true : Option Bool → Bool
is_true none = false
is_true (some b) = b

-- The branch of an active manual override.
unfoldable pub override_intent :
    RoomStateEvaluation
    → String
    → HotelPolicy
    → ManualOverride
    → ℕ
    → Result ValueError DesiredRoomIntent
unfolding build_intent validate_hvac_state
override_intent state room_key policy o correlation_id = do
  hvac ←
      hvac_intent (not (is_off o.hvac_mode)) o.hvac_mode
        (clamp_optional policy o.target_temperature_c)
  build_intent state room_key o.control_mode hvac (is_true o.water_heater_enabled)
      (not (is_off o.hvac_mode)) state.reason correlation_id

-- The intent that turns everything off.
unfoldable pub suppressed_intent :
    RoomStateEvaluation → String → String → ℕ → Result ValueError DesiredRoomIntent
unfolding build_intent validate_hvac_state
suppressed_intent state room_key reason correlation_id = do
  hvac ← hvac_intent false ManualHvacMode.off none
  build_intent state room_key ControlMode.off hvac false false reason correlation_id

-- The automatic branches, by phase.
unfoldable pub automatic_intent :
    AutomationPhase
    → RoomStateEvaluation
    → String
    → HotelPolicy
    → ℕ
    → Result ValueError DesiredRoomIntent
unfolding build_intent validate_hvac_state suppressed_intent
automatic_intent AutomationPhase.vacant state room_key policy correlation_id = do
  hvac ← hvac_intent true ManualHvacMode.heat (some policy.automation.vacant_heating_setback_c)
  build_intent state room_key ControlMode.automatic hvac false false state.reason correlation_id
automatic_intent AutomationPhase.pre_arrival state room_key policy correlation_id = do
  hvac ← hvac_intent true ManualHvacMode.heat (some policy.automation.default_heating_target_c)
  build_intent state room_key ControlMode.automatic hvac
      policy.automation.turn_on_water_heater_pre_arrival
      policy.automation.enable_convectors_pre_arrival state.reason correlation_id
automatic_intent AutomationPhase.reserved state room_key policy correlation_id = do
  hvac ← hvac_intent false ManualHvacMode.off none
  build_intent state room_key ControlMode.automatic hvac false false state.reason correlation_id
automatic_intent AutomationPhase.occupied state room_key policy correlation_id = do
  hvac ←
      hvac_intent true ManualHvacMode.auto
        (some (clamp_temperature policy.automation policy.automation.default_heating_target_c))
  build_intent state room_key ControlMode.automatic hvac true true state.reason correlation_id
automatic_intent AutomationPhase.checkout_due state room_key policy correlation_id = do
  hvac ←
      hvac_intent true ManualHvacMode.auto
        (some (clamp_temperature policy.automation policy.automation.default_heating_target_c))
  build_intent state room_key ControlMode.automatic hvac true true state.reason correlation_id
automatic_intent _ state room_key policy correlation_id =
    suppressed_intent state room_key "unhandled_phase_suppressed" correlation_id

-- The branches in the order of the source: suppressed phases, then the automatic ones.
unfoldable pub policy_intent :
    RoomStateEvaluation → String → HotelPolicy → ℕ → Result ValueError DesiredRoomIntent
unfolding suppressed_intent automatic_intent
policy_intent state room_key policy correlation_id =
    if is_suppressed state.phase
    then suppressed_intent state room_key state.reason correlation_id
    else automatic_intent state.phase state room_key policy correlation_id

-- `state.phase == MANUAL_OVERRIDE and override is not None`, and its else.
unfoldable pub intent_for_room :
    RoomStateEvaluation
    → String
    → HotelPolicy
    → Option ManualOverride
    → ℕ
    → Result ValueError DesiredRoomIntent
unfolding policy_intent override_intent
intent_for_room state room_key policy none correlation_id =
    policy_intent state room_key policy correlation_id
intent_for_room state room_key policy (some o) correlation_id =
    if is_manual_override state.phase
    then override_intent state room_key policy o correlation_id
    else policy_intent state room_key policy correlation_id

unfoldable pub derive_room_intent :
    RoomStateEvaluation
    → HotelPolicy
    → Option ManualOverride
    → ℕ
    → Result ValueError (Option DesiredRoomIntent)
unfolding intent_for_room
derive_room_intent state policy override correlation_id = elim state.room_key [
  | none ↦ ok none
  | some room_key ↦ (do
    intent ← intent_for_room state room_key policy override correlation_id
    ok (some intent))
]
