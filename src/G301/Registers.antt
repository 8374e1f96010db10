-- ===== src/G301/Registers.antt =====
-- app/g301_adapter/registers.py: addresses, modes, and the codecs of register values. A raw register
-- value is a natural number below 2 ^ 16; a bit is read by division.
pub mod Codec
use clock_ha_orchestrator.Prelude.{
  ℕ, ◌+◌, ◌-◌, ◌*◌, ◌/◌, ◌%◌, ◌^◌, Bool, true, false, not, ◌&&◌, ◌||◌, Option, none, some, List, [],
  ◌∷◌, String, ltb, leb, ◌==◌, if◌then◌else◌, select, map,
}
use clock_ha_orchestrator.Prelude.Int.{ℤ, pos, negsuc}
use clock_ha_orchestrator.Prelude.Results.{Result, ok, err, ◌>>=◌, ◌>>◌, raise_if}
use clock_ha_orchestrator.Domain.Enums.{ManualHvacMode}
use clock_ha_orchestrator.Domain.Temperature.{Float, at_most, degrees}

-- The `ValueError`s of the adapter.
pub data CodecError : Type 0 where
  unsupported_limitation invalid_lower_limit invalid_upper_limit crossed_limits : CodecError
  set_temperature_range ambient_temperature_range : CodecError

pub data G301Mode : Type 0 where
  cool dry fan heat auto : G301Mode

-- `int(mode)`
abbrev pub mode_value : G301Mode → ℕ
mode_value G301Mode.cool = 1
mode_value G301Mode.dry = 2
mode_value G301Mode.fan = 3
mode_value G301Mode.heat = 4
mode_value G301Mode.auto = 5

pub data G301ModeLimitation : Type 0 where
  no_limitation heat_prohibited cool_dry_prohibited : G301ModeLimitation

-- `G301ModeLimitation(raw)`
abbrev pub limitation_of : ℕ → Result CodecError G301ModeLimitation
limitation_of raw =
    if raw == 0
    then ok no_limitation
    else if raw == 1
    then ok heat_prohibited
    else if raw == 2
    then ok cool_dry_prohibited
    else err unsupported_limitation

pub record G301Capabilities : Type 0 where
  pub up_down_swing : Bool
  pub left_right_swing : Bool
  pub electric_aux_heating : Bool
  pub self_cleaning : Bool
  pub gentle_breeze : Bool
  pub energy_saving : Bool
  pub health : Bool
  pub access_control : Bool

pub record G301DeviceProfile : Type 0 where
  pub capabilities : G301Capabilities
  pub mode_limitation : G301ModeLimitation
  pub lower_temperature_c : Float
  pub upper_temperature_c : Float

pub record G301Fault : Type 0 where
  pub bit : ℕ
  pub code : Option String
  pub description : String

-- `bool(value & (1 << bit))`
unfoldable pub is_bit_set : ℕ → ℕ → Bool
is_bit_set value bit = value / 2 ^ bit % 2 == 1

unfoldable pub parse_capabilities : ℕ → G301Capabilities
unfolding is_bit_set
parse_capabilities raw = record {
  up_down_swing = is_bit_set raw 0;
  left_right_swing = is_bit_set raw 1;
  electric_aux_heating = is_bit_set raw 2;
  self_cleaning = is_bit_set raw 3;
  gentle_breeze = is_bit_set raw 4;
  energy_saving = is_bit_set raw 5;
  health = is_bit_set raw 6;
  access_control = is_bit_set raw 7;
}

-- The order of the parameters is that of the three registers: limitation, upper, lower.
unfoldable pub build_device_profile : ℕ → ℕ → ℕ → ℕ → Result CodecError G301DeviceProfile
build_device_profile capabilities_raw mode_limitation_raw upper_raw lower_raw = do
  mode_limitation ← limitation_of mode_limitation_raw
  raise_if (not (leb 16 lower_raw && leb lower_raw 25)) invalid_lower_limit
  raise_if (not (leb 26 upper_raw && leb upper_raw 31)) invalid_upper_limit
  raise_if (ltb upper_raw lower_raw) crossed_limits
  ok (record {
    capabilities = parse_capabilities capabilities_raw;
    mode_limitation = mode_limitation;
    lower_temperature_c = degrees lower_raw;
    upper_temperature_c = degrees upper_raw;
  })

-- The entries of `INDOOR_FAULTS`, in their order.
abbrev pub indoor_faults : List G301Fault
indoor_faults =
    record { bit = 15; code = some "E6"; description = "interior fan malfunction" }
    ∷ record { bit = 14; code = some "d4"; description = "water full fault" }
    ∷ record { bit = 13; code = some "PA"; description = "mode conflict" }
    ∷ record { bit = 12; code = some "Fu"; description = "anti-freeze protection" }
    ∷ record { bit = 11; code = some "b5"; description = "interior fan drive failure" }
    ∷ record {
      bit = 10;
      code = some "Eb";
      description = "communication failure between main control board and display screen";
    }
    ∷ record {
      bit = 9;
      code = some "E0";
      description = "communication failure between indoor and outdoor units";
    }
    ∷ record { bit = 8; code = some "E1"; description = "ambient temperature sensor fault" }
    ∷ record { bit = 7; code = none; description = "reserved fault bit 7" }
    ∷ record { bit = 6; code = some "E2"; description = "middle tube temperature sensor fault" }
    ∷ record { bit = 5; code = none; description = "reserved fault bit 5" }
    ∷ record { bit = 4; code = none; description = "reserved fault bit 4" }
    ∷ record { bit = 3; code = none; description = "reserved fault bit 3" }
    ∷ record { bit = 2; code = none; description = "EEPROM communication failure" }
    ∷ record { bit = 1; code = none; description = "reserved fault bit 1" }
    ∷ record { bit = 0; code = none; description = "capacity DIP switch malfunction" }
    ∷ []

unfoldable pub decode_indoor_faults : ℕ → List G301Fault
unfolding is_bit_set
decode_indoor_faults raw = select (λ f. is_bit_set raw f.bit) indoor_faults

-- `round(n / d)` of Python: to the nearest, and a tie to the even neighbour.
abbrev pub round_half_even : ℕ → ℕ → ℕ
round_half_even n d =
    if ltb (n % d * 2) d then n / d else if ltb d (n % d * 2) then n / d + 1 else n / d + n / d % 2

-- `int(round(value * 10))` of a value in thousandths; the callers have excluded the other values.
abbrev pub tenths : Float → ℕ
tenths (Float.fin (pos n)) = round_half_even n 100
tenths _ = 0

unfoldable pub encode_set_temperature_c : Float → Result CodecError ℕ
encode_set_temperature_c value =
    if at_most (degrees 16) value && at_most value (degrees 31)
    then ok (tenths value)
    else err set_temperature_range

unfoldable pub decode_set_temperature_c : ℕ → Float
decode_set_temperature_c raw = Float.fin (pos (raw * 100))

unfoldable pub encode_ifeel_ambient_temperature_c : Float → Result CodecError ℕ
encode_ifeel_ambient_temperature_c value =
    if at_most (degrees 0) value && at_most value (degrees 50)
    then ok (tenths value + 1000)
    else err ambient_temperature_range

-- `(raw - 1000) / 10.0`, which is negative below 1000.
unfoldable pub decode_offset_temperature_c : ℕ → Float
decode_offset_temperature_c raw =
    if leb 1000 raw
    then Float.fin (pos ((raw - 1000) * 100))
    else Float.fin (negsuc ((1000 - raw) * 100 - 1))

abbrev pub mode_from_hvac_mode : ManualHvacMode → Option G301Mode
mode_from_hvac_mode ManualHvacMode.off = none
mode_from_hvac_mode ManualHvacMode.heat = some G301Mode.heat
mode_from_hvac_mode ManualHvacMode.cool = some G301Mode.cool
mode_from_hvac_mode ManualHvacMode.auto = some G301Mode.auto
