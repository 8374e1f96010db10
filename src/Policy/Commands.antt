-- ===== src/Policy/Commands.antt =====
-- app/policy/commands.py: a manual command of the dashboard becomes an override.
pub mod Laws
use clock_ha_orchestrator.Prelude.{
  ℕ, ◌*◌, Bool, true, false, not, ◌&&◌, Option, none, some, if◌then◌else◌, ltb, ◌==◌, is_some,
}
use clock_ha_orchestrator.Prelude.Results.{Result, ok, err, ◌>>=◌, ◌>>◌, raise_if}
use clock_ha_orchestrator.Domain.Enums.{ControlMode, ManualHvacMode, is_off}
use clock_ha_orchestrator.Domain.Time.{ZoneInfo, DateTime, minute, plus}
use clock_ha_orchestrator.Domain.Temperature.{Float}
use clock_ha_orchestrator.Domain.Models.{AutomationPolicy, ManualOverride, clamp_temperature}

-- `Literal["60", "240", "720", "until_checkout"]`
pub data OverrideDuration : Type 0 where
  minutes_60 minutes_240 minutes_720 until_checkout : OverrideDuration

pub data CommandError : Type 0 where
  missing_target unsupported_version exceeds_maximum : CommandError

pub record ManualControlCommand : Type 0 where
  pub command_id : ℕ
  pub control_mode : ControlMode
  pub manual_hvac_mode : ManualHvacMode
  pub manual_target_temperature_c : Option Float
  pub override_duration : OverrideDuration
  pub manual_water_heater_enabled : Option Bool
  pub schema_version : ℕ

abbrev pub is_manual : ControlMode → Bool
is_manual ControlMode.manual = true
is_manual _ = false

pub validate_manual_mode : ManualControlCommand → Result CommandError ManualControlCommand
validate_manual_mode c = do
  raise_if
      (is_manual c.control_mode
        && not (is_off c.manual_hvac_mode)
        && not (is_some c.manual_target_temperature_c))
      missing_target
  ok c

-- `int(duration)`, and none for `until_checkout`
abbrev pub literal_minutes : OverrideDuration → Option ℕ
literal_minutes minutes_60 = some 60
literal_minutes minutes_240 = some 240
literal_minutes minutes_720 = some 720
literal_minutes until_checkout = none

abbrev pub within_maximum : AutomationPolicy → Option ℕ → Result CommandError (Option ℕ)
within_maximum policy none = ok none
within_maximum policy (some minutes) =
    if ltb policy.manual_override_max_minutes minutes
    then err exceeds_maximum
    else ok (some minutes)

unfoldable pub duration_minutes :
    OverrideDuration → AutomationPolicy → Result CommandError (Option ℕ)
duration_minutes d policy = within_maximum policy (literal_minutes d)

-- `None if minutes is None else now + timedelta(minutes=minutes)`
abbrev pub expiry : ZoneInfo → DateTime → Option ℕ → Option DateTime
expiry z now none = none
expiry z now (some minutes) = some (plus z now (minutes * minute))

abbrev pub clamp_target : AutomationPolicy → Option Float → Option Float
clamp_target policy none = none
clamp_target policy (some t) = some (clamp_temperature policy t)

-- The calls of `ManualOverride(...)`, with the fields that each leaves to its default.
unfoldable pub override_of_mode :
    ControlMode
    → ZoneInfo
    → ManualControlCommand
    → AutomationPolicy
    → DateTime
    → Result CommandError ManualOverride
unfolding duration_minutes
override_of_mode ControlMode.automatic z c policy now = ok (record {
  control_mode = ControlMode.automatic;
  clock_booking_id = none;
  hvac_mode = ManualHvacMode.off;
  target_temperature_c = none;
  water_heater_enabled = none;
  expires_at = none;
  checkout_at = none;
  until_checkout = false;
  command_id = c.command_id;
})
override_of_mode ControlMode.off z c policy now = do
  minutes ← duration_minutes c.override_duration policy
  ok (record {
    control_mode = ControlMode.off;
    clock_booking_id = none;
    hvac_mode = ManualHvacMode.off;
    target_temperature_c = none;
    water_heater_enabled = none;
    expires_at = expiry z now minutes;
    checkout_at = none;
    until_checkout = not (is_some minutes);
    command_id = c.command_id;
  })
override_of_mode ControlMode.manual z c policy now = do
  minutes ← duration_minutes c.override_duration policy
  ok (record {
    control_mode = ControlMode.manual;
    clock_booking_id = none;
    hvac_mode = c.manual_hvac_mode;
    target_temperature_c = clamp_target policy c.manual_target_temperature_c;
    water_heater_enabled = c.manual_water_heater_enabled;
    expires_at = expiry z now minutes;
    checkout_at = none;
    until_checkout = not (is_some minutes);
    command_id = c.command_id;
  })

unfoldable pub command_to_override :
    ZoneInfo
    → ManualControlCommand
    → AutomationPolicy
    → DateTime
    → Result CommandError ManualOverride
unfolding override_of_mode
command_to_override z c policy now = do
  raise_if (not (c.schema_version == 1)) unsupported_version
  override_of_mode c.control_mode z c policy now
