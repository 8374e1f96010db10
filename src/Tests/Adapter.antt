-- ===== src/Tests/Adapter.antt =====
-- A worker on the simulated bus of an entrance with one device.
use clock_ha_orchestrator.Prelude.{
  ℕ, ◌+◌, ◌*◌, ◌≡◌, ◌≤◌, refl, inl, inr, false, none, some, List, [], ◌∷◌, ◌++◌, length, arith,
  Option-cases,
}
use clock_ha_orchestrator.Prelude.Int.{pos}
use clock_ha_orchestrator.Prelude.Results.{ok}
use clock_ha_orchestrator.Domain.Enums.{ManualHvacMode}
use clock_ha_orchestrator.Domain.Temperature.{Float}
use clock_ha_orchestrator.Domain.Models.{DesiredRoomIntent}
use clock_ha_orchestrator.G301.Registers.{
  encode_set_temperature_c, decode_set_temperature_c, encode_ifeel_ambient_temperature_c,
  is_bit_set, build_device_profile, parse_capabilities,
}
use clock_ha_orchestrator.G301.Registers.Codec.{decode-encode_set_temperature_c}
use clock_ha_orchestrator.G301.Planner.{
  G301Plan, plan_of, power_off, readback_expectation, validate_mode, plan_enabled, plan_room_intent,
  compare_readback,
}
use clock_ha_orchestrator.G301.Simulator.{
  new_device, device_at, device_read, device_write, advance_pending_status, apply_plan, EntranceBus,
  entrance_read, entrance_write, entrance_simulator, read, write,
}
use clock_ha_orchestrator.G301.Simulator.Plans.{apply_plan-compare_readback}
use clock_ha_orchestrator.G301.Worker.State.{
  AttemptPhase, ExecutionStatus, Message, IntentExecutionResult, Config,
}
use clock_ha_orchestrator.G301.Worker.Bus.{
  retry_loop, with_retry, write_one, read_one, read_device_profile, read_expectations,
  readback_loop, readback, write_all,
}
use clock_ha_orchestrator.G301.Worker.Execute.{
  Run, verify_attempt, write_phase, try_plan, plan_phase, execute_intent, resume_verification,
}
use clock_ha_orchestrator.G301.Worker.Apply.{Worker, new_attempt, apply_intent}
use clock_ha_orchestrator.G301.Worker.Replies.{apply_intent-applied_once}
use clock_ha_orchestrator.G301.Worker.Advance.{
  Reaches, last_seen, superseded, Quiet, apply_intent-last_seen, apply_intent-Quiet,
}
use clock_ha_orchestrator.G301.Worker.Confirmed.{Confirmed, execute_intent-Confirmed}
use clock_ha_orchestrator.G301.Worker.Grounded.{Grounded, resume_verification-Grounded}
use clock_ha_orchestrator.G301.Worker.Retries.{readback_bound}
use clock_ha_orchestrator.Tests.Rooms.{noon}
use clock_ha_orchestrator.Tests.Intents.{served}

abbrev config : Config
config = record {
  room_slave_addresses = ("r101", 1) ∷ [];
  max_operation_attempts = 2;
  retry_backoff = 100;
  readback_attempts = 3;
  readback_delay = 50;
  slave_retry_base = 5000;
  slave_retry_max = 60000;
  validity_clock_skew = 1000;
  fingerprint = λ p. p.reason;
}

abbrev bus : EntranceBus
bus = record { devices = (1, new_device 1 0) ∷ []; operations = []; time = noon.instant + 10 }

abbrev worker : Worker
worker = record { intent_states = []; slave_failures = [] }

abbrev applied_result : IntentExecutionResult
applied_result = record {
  room_key = "r101";
  intent_version = 1;
  status = ExecutionStatus.applied;
  message = Message.no_message;
  register_writes =
      record { address = 0x0202; value = 5 }
      ∷ record { address = 0x0203; value = 220 }
      ∷ record { address = 0x0201; value = 1 }
      ∷ [];
  mismatches = [];
  correlation_id = 5;
}

abbrev run : Run EntranceBus
run = record {
  last_seen_version = some 1;
  last_terminal_version = none;
  last_applied_version = none;
  attempt = new_attempt 1 "in_house_guest";
  failures = [];
  bus = bus;
}

runs :
    execute_intent entrance_simulator config served 1 run
    ≡ (ok applied_result, (execute_intent entrance_simulator config served 1 run).1)
unfolding execute_intent plan_phase try_plan write_phase verify_attempt readback readback_loop
    read_expectations read_one write_all write_one with_retry retry_loop read_device_profile
    build_device_profile parse_capabilities plan_room_intent plan_enabled validate_mode
    encode_set_temperature_c readback_expectation compare_readback entrance_read entrance_write
    device_read device_write advance_pending_status is_bit_set
runs = refl

execute_intent-Confirmed_example : Confirmed entrance_simulator config served 1 applied_result
execute_intent-Confirmed_example =
    execute_intent-Confirmed entrance_simulator config served 1 run
      (execute_intent entrance_simulator config served 1 run).1 applied_result runs refl

applies : apply_intent entrance_simulator config served worker bus ≡ (
  ok applied_result,
  (apply_intent entrance_simulator config served worker bus).1,
  (apply_intent entrance_simulator config served worker bus).2,
)
unfolding apply_intent execute_intent plan_phase try_plan write_phase verify_attempt readback
    readback_loop read_expectations read_one write_all write_one with_retry retry_loop
    read_device_profile build_device_profile parse_capabilities plan_room_intent plan_enabled
    validate_mode encode_set_temperature_c readback_expectation compare_readback entrance_read
    entrance_write device_read device_write advance_pending_status is_bit_set
applies = refl

-- The bus is another one by then: the device is gone.
abbrev dead_bus : EntranceBus
dead_bus = record { devices = []; operations = []; time = 0 }

apply_intent-applied_once_example :
    apply_intent entrance_simulator config served
      (apply_intent entrance_simulator config served worker bus).1
      dead_bus
    ≡ (ok applied_result, (apply_intent entrance_simulator config served worker bus).1, dead_bus)
apply_intent-applied_once_example =
    apply_intent-applied_once entrance_simulator config served worker
      (apply_intent entrance_simulator config served worker bus).1 bus
      (apply_intent entrance_simulator config served worker bus).2 dead_bus applied_result applies
      refl

-- A worker that has seen version 5 of the room's intent.
abbrev ahead : Worker
ahead = record {
  intent_states =
      (
        "r101",
        record {
          last_seen_version = some 5;
          last_terminal_version = some 5;
          last_applied_version = none;
          current_attempt = none;
        },
      )
      ∷ [];
  slave_failures = [];
}

apply_intent-Quiet_example :
    Quiet entrance_simulator config served ahead bus ExecutionStatus.stale
      (apply_intent entrance_simulator config served ahead bus)
apply_intent-Quiet_example =
    apply_intent-Quiet entrance_simulator config served ahead bus ExecutionStatus.stale
      (superseded 1 5 refl refl (omega arith))

apply_intent-last_seen_example :
    Reaches
      (last_seen ahead "r101")
      (last_seen (apply_intent entrance_simulator config served ahead bus).1 "r101")
apply_intent-last_seen_example = apply_intent-last_seen entrance_simulator config served ahead bus

-- The calls of the client that the bus has seen.
abbrev calls : EntranceBus → ℕ
calls b = length b.operations

length-snoc : {A : Type 0} (xs : List A) (x : A) → length (xs ++ x ∷ []) ≡ length xs + 1
length-snoc [] x = refl
length-snoc (y ∷ xs) x = let rest = length-snoc xs x in omega arith

sleeps_once : (d : ℕ) (b : EntranceBus) → calls (entrance_simulator.sleep d b) ≤ calls b
sleeps_once d b = omega arith

reads_once :
    (s a n : ℕ) (b : EntranceBus)
    → calls (entrance_simulator.read_holding_registers s a n b).1 ≤ calls b + 1
unfolding entrance_read
reads_once s a n b = elim (Option-cases (device_at s b.devices)) [
  | inl e ↦ rw e (omega (arith, length-snoc b.operations (read s a)))
  | inr (d, e) ↦ rw e (omega (arith, length-snoc b.operations (read s a)))
]

writes_once :
    (s a v : ℕ) (b : EntranceBus)
    → calls (entrance_simulator.write_register s a v b).1 ≤ calls b + 1
unfolding entrance_write
writes_once s a v b = elim (Option-cases (device_at s b.devices)) [
  | inl e ↦ rw e (omega (arith, length-snoc b.operations (write s a)))
  | inr (d, e) ↦ rw e (omega (arith, length-snoc b.operations (write s a)))
]

abbrev off_plan : G301Plan
off_plan = record {
  room_key = "r101";
  slave_address = 1;
  intent_version = 2;
  correlation_id = 5;
  writes = record { address = 0x0201; value = 0; reason = "off" } ∷ [];
  readback_expectations =
      record { address = 0x030F; expected = 0; description = "actual power status" } ∷ [];
}

readback_bound_example :
    calls (readback entrance_simulator config off_plan bus).1 ≤ calls bus + 3 * (1 * 2)
readback_bound_example =
    readback_bound entrance_simulator config calls sleeps_once reads_once writes_once off_plan bus

-- The plan that switches the device off.
abbrev vacated : DesiredRoomIntent
vacated = record served {
  hvac = record { enabled = false; mode = ManualHvacMode.off; target_temperature_c = none };
}

abbrev vacated_plan : G301Plan
vacated_plan = plan_of vacated 1 (power_off ∷ [])

plans_off : plan_room_intent vacated 1 none ≡ ok vacated_plan
unfolding plan_room_intent
plans_off = refl

apply_plan-compare_readback_example :
    (observed : List (ℕ × ℕ)) × ((apply_plan vacated_plan (new_device 1 0)).0 ≡ ok observed)
    × (compare_readback vacated_plan observed ≡ [])
apply_plan-compare_readback_example =
    apply_plan-compare_readback vacated 1 none vacated_plan (new_device 1 0) plans_off refl refl
      refl

encodes : encode_set_temperature_c (Float.fin (pos 21549)) ≡ ok 215
unfolding encode_set_temperature_c
encodes = refl

decode-encode_set_temperature_c_example :
    (160 ≤ 215)
    × (215 ≤ 310)
    × (m : ℕ) × (decode_set_temperature_c 215 ≡ Float.fin (pos m))
    × (m ≤ 21549 + 50)
    × (21549 ≤ m + 50)
decode-encode_set_temperature_c_example = decode-encode_set_temperature_c 21549 215 encodes

encodes_ambient : encode_ifeel_ambient_temperature_c (Float.fin (pos 21549)) ≡ ok 1215
unfolding encode_ifeel_ambient_temperature_c
encodes_ambient = refl

-- The run, whose plan waits for its verification.
abbrev waiting : Run EntranceBus
waiting = record run {
  attempt = record (run.attempt) {
    phase = AttemptPhase.verification_pending;
    plan = some off_plan;
    completed_writes = [];
  };
}

abbrev resumed_result : IntentExecutionResult
resumed_result = record applied_result { register_writes = [] }

resumes :
    resume_verification entrance_simulator config served 1 waiting
    ≡ (ok resumed_result, (resume_verification entrance_simulator config served 1 waiting).1)
unfolding resume_verification verify_attempt readback readback_loop read_expectations read_one
    with_retry retry_loop compare_readback entrance_read device_read advance_pending_status
resumes = refl

resume_verification-Grounded_example :
    Grounded entrance_simulator config served 1 waiting resumed_result
resume_verification-Grounded_example =
    resume_verification-Grounded entrance_simulator config served 1 waiting
      (resume_verification entrance_simulator config served 1 waiting).1 resumed_result resumes refl
