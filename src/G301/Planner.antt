-- ===== src/G301/Planner.antt =====
-- app/g301_adapter/planner.py: from an intent to register writes, and from a readback to mismatches.
pub mod Laws
use clock_ha_orchestrator.Prelude.{
  ℕ, Bool, true, false, not, ◌&&◌, ◌||◌, Option, none, some, List, [], ◌∷◌, String, leb, ◌==◌,
  if◌then◌else◌, select, map, is_some,
}
use clock_ha_orchestrator.Prelude.Results.{Result, ok, err, ◌>>=◌, ◌>>◌, raise_if}
use clock_ha_orchestrator.Domain.Enums.{ManualHvacMode, is_off}
use clock_ha_orchestrator.Domain.Temperature.{Float, at_most}
use clock_ha_orchestrator.Domain.Models.{DesiredRoomIntent}
use clock_ha_orchestrator.G301.G301Register
use clock_ha_orchestrator.G301.Registers.{
  G301DeviceProfile, G301Mode, G301ModeLimitation, no_limitation, heat_prohibited,
  cool_dry_prohibited, CodecError, mode_value, mode_from_hvac_mode, encode_set_temperature_c,
}

-- `G301PlanningError`, one constructor for each place that raises; the last one is the `ValueError`
-- of the encoder, which the planner lets through.
pub data PlanError : Type 0 where
  slave_range unsupported_mode missing_profile heat_prohibited_by_device : PlanError
  cool_prohibited_by_device missing_target target_outside_limits : PlanError
  codec : CodecError → PlanError

pub record RegisterWrite : Type 0 where
  pub address : ℕ
  pub value : ℕ
  pub reason : String

pub record ReadbackExpectation : Type 0 where
  pub address : ℕ
  pub expected : ℕ
  pub description : String

pub record G301Plan : Type 0 where
  pub room_key : String
  pub slave_address : ℕ
  pub intent_version : ℕ
  pub correlation_id : ℕ
  pub writes : List RegisterWrite
  pub readback_expectations : List ReadbackExpectation

pub record ReadbackMismatch : Type 0 where
  pub address : ℕ
  pub expected : ℕ
  pub observed : Option ℕ
  pub description : String

-- The dictionary of `_readback_expectation`, with the default of its `get`.
abbrev pub status_address : ℕ → ℕ × String
status_address a =
    if a == G301Register.power
    then (G301Register.power_status, "actual power status")
    else if a == G301Register.mode
    then (G301Register.mode_status, "actual operating mode")
    else if a == G301Register.set_temperature
    then (G301Register.set_temperature, "accepted target temperature")
    else if a == G301Register.fan_speed
    then (G301Register.fan_status, "actual fan status")
    else (a, "command register readback")

unfoldable pub readback_expectation : RegisterWrite → ReadbackExpectation
readback_expectation write = record {
  address = (status_address write.address).0;
  expected = write.value;
  description = (status_address write.address).1;
}

abbrev pub plan_of : DesiredRoomIntent → ℕ → List RegisterWrite → G301Plan
plan_of intent slave_address writes = record {
  room_key = intent.room_key;
  slave_address = slave_address;
  intent_version = intent.intent_version;
  correlation_id = intent.correlation_id;
  writes = writes;
  readback_expectations = map readback_expectation writes;
}

-- `mode in {4, 5}` and `mode in {1, 2, 5}`
abbrev pub is_heating : G301Mode → Bool
is_heating G301Mode.heat = true
is_heating G301Mode.auto = true
is_heating _ = false

abbrev pub is_cooling : G301Mode → Bool
is_cooling G301Mode.cool = true
is_cooling G301Mode.dry = true
is_cooling G301Mode.auto = true
is_cooling _ = false

abbrev pub prohibits_heat : G301ModeLimitation → Bool
prohibits_heat heat_prohibited = true
prohibits_heat _ = false

abbrev pub prohibits_cool : G301ModeLimitation → Bool
prohibits_cool cool_dry_prohibited = true
prohibits_cool _ = false

unfoldable pub validate_mode : G301Mode → G301DeviceProfile → Result PlanError (Unit {0})
validate_mode mode profile = do
  raise_if (prohibits_heat profile.mode_limitation && is_heating mode) heat_prohibited_by_device
  raise_if (prohibits_cool profile.mode_limitation && is_cooling mode) cool_prohibited_by_device
  ok tt

abbrev pub power_off : RegisterWrite
power_off = record { address = G301Register.power; value = 0; reason = "desired HVAC is disabled" }

abbrev pub power_on : RegisterWrite
power_on = record { address = G301Register.power; value = 1; reason = "desired HVAC is enabled" }

abbrev pub mode_reason : ManualHvacMode → String
mode_reason ManualHvacMode.off = "desired HVAC mode is off"
mode_reason ManualHvacMode.heat = "desired HVAC mode is heat"
mode_reason ManualHvacMode.cool = "desired HVAC mode is cool"
mode_reason ManualHvacMode.auto = "desired HVAC mode is auto"

abbrev pub or_raise {ℓ} : {A : Type ℓ} → Option A → PlanError → Result PlanError A
or_raise none e = err e
or_raise (some a) e = ok a

-- A `ValueError` of the encoder leaves the planner as it is.
abbrev pub as_plan_error {ℓ} : {A : Type ℓ} → Result CodecError A → Result PlanError A
as_plan_error (ok a) = ok a
as_plan_error (err e) = err (codec e)

-- The part of `plan_room_intent` for an enabled HVAC intent.
unfoldable pub plan_enabled :
    DesiredRoomIntent → ℕ → Option G301DeviceProfile → Result PlanError G301Plan
unfolding validate_mode encode_set_temperature_c readback_expectation
plan_enabled intent slave_address device_profile = do
  mode ← or_raise (mode_from_hvac_mode intent.hvac.mode) unsupported_mode
  profile ← or_raise device_profile missing_profile
  validate_mode mode profile
  target ← or_raise intent.hvac.target_temperature_c missing_target
  raise_if
      (not
        (at_most profile.lower_temperature_c target && at_most target profile.upper_temperature_c))
      target_outside_limits
  raw ← as_plan_error (encode_set_temperature_c target)
  ok (
      plan_of intent slave_address (
        record {
          address = G301Register.mode;
          value = mode_value mode;
          reason = mode_reason intent.hvac.mode;
        }
        ∷ record {
          address = G301Register.set_temperature;
          value = raw;
          reason = "desired HVAC target temperature";
        }
        ∷ power_on
        ∷ []))

unfoldable pub plan_room_intent :
    DesiredRoomIntent → ℕ → Option G301DeviceProfile → Result PlanError G301Plan
unfolding plan_enabled
plan_room_intent intent slave_address device_profile = do
  raise_if (not (leb 1 slave_address && leb slave_address 255)) slave_range
  (if not intent.hvac.enabled || is_off intent.hvac.mode
      then ok (plan_of intent slave_address (power_off ∷ []))
      else plan_enabled intent slave_address device_profile)

-- `observed.get(address)`, of a dictionary as the list of its entries, the last one first.
abbrev pub get : ℕ → List (ℕ × ℕ) → Option ℕ
get a [] = none
get a ((k, v) ∷ d) = if k == a then some v else get a d

abbrev pub differs : Option ℕ → ℕ → Bool
differs none v = true
differs (some w) v = not (w == v)

abbrev pub mismatch_of : List (ℕ × ℕ) → ReadbackExpectation → ReadbackMismatch
mismatch_of observed e = record {
  address = e.address;
  expected = e.expected;
  observed = get e.address observed;
  description = e.description;
}

unfoldable pub compare_readback : G301Plan → List (ℕ × ℕ) → List ReadbackMismatch
compare_readback plan observed =
    map (mismatch_of observed)
      (select (λ e. differs (get e.address observed) e.expected) plan.readback_expectations)
