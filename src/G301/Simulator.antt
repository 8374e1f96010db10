-- ===== src/G301/Simulator.antt =====
-- app/g301_adapter/simulator.py: the simulated device and the simulated bus of an entrance. A
-- dictionary is the list of its entries, the one written last first.
pub mod Plans
use clock_ha_orchestrator.Prelude.{
  ℕ, zero, suc, ◌+◌, ◌-◌, Bool, true, false, not, ◌&&◌, Option, none, some, List, [], ◌∷◌, ◌++◌,
  ltb, leb, ◌==◌, if◌then◌else◌,
}
use clock_ha_orchestrator.Prelude.Results.{Result, ok, err, ◌>>=◌, ◌>>◌, raise_if}
use clock_ha_orchestrator.G301.G301Register
use clock_ha_orchestrator.G301.Planner.{RegisterWrite, ReadbackExpectation, G301Plan, get}
use clock_ha_orchestrator.G301.Transport.{device_offline, Failure, crashed, RegisterClient}

pub record Device : Type 0 where
  pub slave_address : ℕ
  pub status_delay_reads : ℕ
  pub registers : List (ℕ × ℕ)
  -- the value that a status register is to take, and the reads until then
  pub pending_status : List (ℕ × ℕ × ℕ)

-- `_default_registers`; 220 is the encoded set temperature of 22 degrees.
abbrev pub default_registers : List (ℕ × ℕ)
default_registers =
    (G301Register.power, 0)
    ∷ (G301Register.mode, 0)
    ∷ (G301Register.set_temperature, 220)
    ∷ (G301Register.mode_limitation, 0)
    ∷ (G301Register.temperature_upper_limit, 31)
    ∷ (G301Register.temperature_lower_limit, 16)
    ∷ (G301Register.capabilities, 0)
    ∷ (G301Register.power_status, 0)
    ∷ (G301Register.mode_status, 0)
    ∷ (G301Register.fan_status, 0)
    ∷ (G301Register.indoor_fault_flag, 0)
    ∷ (G301Register.indoor_fault_bits, 0)
    ∷ []

-- The constructor, without initial values.
abbrev pub new_device : ℕ → ℕ → Device
new_device slave_address status_delay_reads = record {
  slave_address = slave_address;
  status_delay_reads = status_delay_reads;
  registers = default_registers;
  pending_status = [];
}

-- `self._registers.get(address, 0)`
abbrev pub register_value : List (ℕ × ℕ) → ℕ → ℕ
register_value registers a = elim (get a registers) [ none ↦ 0 | some v ↦ v ]

abbrev pub pending_of : ℕ → List (ℕ × ℕ × ℕ) → Option (ℕ × ℕ)
pending_of a [] = none
pending_of a ((k, v, n) ∷ d) = if k == a then some (v, n) else pending_of a d

abbrev pub delete_pending : ℕ → List (ℕ × ℕ × ℕ) → List (ℕ × ℕ × ℕ)
delete_pending a [] = []
delete_pending a ((k, v, n) ∷ d) =
    if k == a then delete_pending a d else (k, v, n) ∷ delete_pending a d

-- One address of `_advance_pending_status`, with what is pending for it.
abbrev pub advance_one : ℕ → Device → Option (ℕ × ℕ) → Device
advance_one a d none = d
advance_one a d (some (value, remaining)) =
    if leb remaining 1
    then record d {
      registers = (a, value) ∷ d.registers;
      pending_status = delete_pending a d.pending_status;
    }
    else record d { pending_status = (a, value, remaining - 1) ∷ delete_pending a d.pending_status }

unfoldable pub advance_pending_status : ℕ → ℕ → Device → Device
advance_pending_status a zero d = d
advance_pending_status a (suc count) d =
    advance_pending_status (a + 1) count (advance_one a d (pending_of a d.pending_status))

abbrev pub set_status : ℕ → ℕ → Device → Device
set_status a value d =
    if ltb 0 d.status_delay_reads
    then record d {
      pending_status = (a, value, d.status_delay_reads) ∷ delete_pending a d.pending_status;
    }
    else record d { registers = (a, value) ∷ d.registers }

abbrev pub mirror_control_to_status : ℕ → ℕ → Device → Device
mirror_control_to_status a value d =
    if a == G301Register.power
    then set_status G301Register.power_status value d
    else if a == G301Register.mode
    then set_status G301Register.mode_status value d
    else d

abbrev pub values_from : List (ℕ × ℕ) → ℕ → ℕ → List ℕ
values_from registers a zero = []
values_from registers a (suc count) =
    register_value registers a ∷ values_from registers (a + 1) count

-- The register operations of one device: G301DeviceOffline, or a ValueError, which nothing catches.
unfoldable pub device_read : ℕ → ℕ → ℕ → Device → Result Failure (List ℕ) × Device
unfolding advance_pending_status
device_read slave_address a count d =
    if not (slave_address == d.slave_address)
    then (err (Failure.failed device_offline), d)
    else if ltb count 1
    then (err crashed, d)
    else (ok (values_from d.registers a count), advance_pending_status a count d)

unfoldable pub device_write : ℕ → ℕ → ℕ → Device → Result Failure (Unit {0}) × Device
device_write slave_address a value d =
    if not (slave_address == d.slave_address)
    then (err (Failure.failed device_offline), d)
    else if ltb 65535 value
    then (err crashed, d)
    else (
      ok tt,
      mirror_control_to_status a value (record d { registers = (a, value) ∷ d.registers }),
    )

-- The two loops of `apply_plan`.
unfoldable pub write_plan : ℕ → List RegisterWrite → Device → Result Failure (Unit {0}) × Device
unfolding device_write
write_plan slave [] d = (ok tt, d)
write_plan slave (w ∷ ws) d =
    let (result, d') = device_write slave w.address w.value d in
    elim result [ err e ↦ (err e, d') | ok _ ↦ write_plan slave ws d' ]

abbrev pub head_or_zero : List ℕ → ℕ
head_or_zero [] = 0
head_or_zero (v ∷ _) = v

unfoldable pub read_plan :
    ℕ → List ReadbackExpectation → List (ℕ × ℕ) → Device → Result Failure (List (ℕ × ℕ)) × Device
unfolding device_read
read_plan slave [] observed d = (ok observed, d)
read_plan slave (e ∷ es) observed d =
    let (result, d') = device_read slave e.address 1 d in
    elim result [
      | err x ↦ (err x, d')
      | ok values ↦ read_plan slave es ((e.address, head_or_zero values) ∷ observed) d'
    ]

unfoldable pub apply_plan : G301Plan → Device → Result Failure (List (ℕ × ℕ)) × Device
unfolding write_plan read_plan
apply_plan plan d =
    if not (plan.slave_address == d.slave_address)
    then (err crashed, d)
    else (let (result, d') = write_plan plan.slave_address plan.writes d in
        elim result [
          | err e ↦ (err e, d')
          | ok _ ↦ read_plan plan.slave_address plan.readback_expectations [] d'
        ])

pub data Operation : Type 0 where
  read write : ℕ → ℕ → Operation

-- `G301EntranceSimulator`, and the clock of the loop that it runs in.
pub record EntranceBus : Type 0 where
  pub devices : List (ℕ × Device)
  pub operations : List Operation
  pub time : ℕ

abbrev pub device_at : ℕ → List (ℕ × Device) → Option Device
device_at a [] = none
device_at a ((k, d) ∷ ds) = if k == a then some d else device_at a ds

abbrev pub store_device : ℕ → Device → List (ℕ × Device) → List (ℕ × Device)
store_device a d [] = []
store_device a d ((k, e) ∷ ds) = if k == a then (k, d) ∷ ds else (k, e) ∷ store_device a d ds

abbrev pub on_device :
    {A : Type 0}
    → ℕ
    → (Device → Result Failure A × Device)
    → Option Device
    → EntranceBus
    → Result Failure A × EntranceBus
on_device slave operation none bus = (err (Failure.failed device_offline), bus)
on_device slave operation (some d) bus =
    let (result, d') = operation d in
    (result, record bus { devices = store_device slave d' bus.devices })

unfoldable pub entrance_read : ℕ → ℕ → ℕ → EntranceBus → Result Failure (List ℕ) × EntranceBus
unfolding device_read
entrance_read slave a count bus =
    on_device slave (device_read slave a count) (device_at slave bus.devices)
      (record bus { operations = bus.operations ++ read slave a ∷ [] })

unfoldable pub entrance_write : ℕ → ℕ → ℕ → EntranceBus → Result Failure (Unit {0}) × EntranceBus
unfolding device_write
entrance_write slave a value bus =
    on_device slave (device_write slave a value) (device_at slave bus.devices)
      (record bus { operations = bus.operations ++ write slave a ∷ [] })

abbrev pub entrance_simulator : RegisterClient EntranceBus
entrance_simulator = record {
  write_register = entrance_write;
  read_holding_registers = entrance_read;
  clock = λ bus. bus.time;
  sleep = λ d bus. record bus { time = bus.time + d };
}
