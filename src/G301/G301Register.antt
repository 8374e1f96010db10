-- ===== src/G301/G301Register.antt =====
-- app/g301_adapter/registers.py, `G301Register`: the addresses of the registers at work.
use clock_ha_orchestrator.Prelude.{ℕ}

abbrev pub power : ℕ
power = 0x0201

abbrev pub mode : ℕ
mode = 0x0202

abbrev pub set_temperature : ℕ
set_temperature = 0x0203

abbrev pub fan_speed : ℕ
fan_speed = 0x0204

abbrev pub mode_limitation : ℕ
mode_limitation = 0x0214

abbrev pub temperature_upper_limit : ℕ
temperature_upper_limit = 0x0215

abbrev pub temperature_lower_limit : ℕ
temperature_lower_limit = 0x0216

abbrev pub capabilities : ℕ
capabilities = 0x030E

abbrev pub power_status : ℕ
power_status = 0x030F

abbrev pub mode_status : ℕ
mode_status = 0x0310

abbrev pub fan_status : ℕ
fan_status = 0x0311

abbrev pub indoor_fault_flag : ℕ
indoor_fault_flag = 0x0321

abbrev pub indoor_fault_bits : ℕ
indoor_fault_bits = 0x0322
