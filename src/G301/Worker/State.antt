-- ===== src/G301/Worker/State.antt =====
-- app/g301_adapter/worker.py: the records of the worker, and the results of app/mqtt/schemas.py.
-- `applied_at` of a result, a time stamp that nothing reads, is left out; a message is a value that
-- holds what its text is made of. Times and delays are in microseconds.
use clock_ha_orchestrator.Prelude.{
  ℕ, ◌+◌, ◌-◌, ◌*◌, ◌^◌, min, Option, none, some, List, [], ◌∷◌, String, str_eq, ◌==◌,
  if◌then◌else◌,
}
use clock_ha_orchestrator.Domain.Models.{StablePayload}
use clock_ha_orchestrator.G301.Planner.{PlanError, G301Plan, ReadbackMismatch}
use clock_ha_orchestrator.G301.Transport.{TransportError}

-- `IntentAttemptPhase`
pub data AttemptPhase : Type 0 where
  retryable writing verification_pending terminal : AttemptPhase

-- The literals of `IntentExecutionResult.status` that the worker writes.
pub data ExecutionStatus : Type 0 where
  applied applied_unconfirmed rejected timeout modbus_exception readback_mismatch : ExecutionStatus
  device_offline not_yet_effective expired stale failed skipped : ExecutionStatus

pub data Message : Type 0 where
  no_slave_address no_message intent_expired intent_in_future state_mismatch : Message
  different_payload : Message
  older_than cooldown_until : ℕ → Message
  of_plan_error : PlanError → Message
  of_transport_error unverified : TransportError → Message

pub record RegisterWriteResult : Type 0 where
  pub address : ℕ
  pub value : ℕ

pub record IntentExecutionResult : Type 0 where
  pub room_key : String
  pub intent_version : ℕ
  pub status : ExecutionStatus
  pub message : Message
  pub register_writes : List RegisterWriteResult
  pub mismatches : List ReadbackMismatch
  pub correlation_id : ℕ

pub record SlaveFailureState : Type 0 where
  pub consecutive_failures : ℕ
  pub retry_after : Option ℕ

pub record IntentAttempt : Type 0 where
  pub version : ℕ
  pub payload_fingerprint : String
  pub phase : AttemptPhase
  pub plan : Option G301Plan
  pub completed_writes : List RegisterWriteResult
  pub cached_result : Option IntentExecutionResult

pub record RoomIntentState : Type 0 where
  pub last_seen_version : Option ℕ
  pub last_terminal_version : Option ℕ
  pub last_applied_version : Option ℕ
  pub current_attempt : Option IntentAttempt

-- The settings of the constructor, and `room_slave_addresses`.
pub record Config : Type 0 where
  pub room_slave_addresses : List (String × ℕ)
  pub max_operation_attempts : ℕ
  pub retry_backoff : ℕ
  pub readback_attempts : ℕ
  pub readback_delay : ℕ
  pub slave_retry_base : ℕ
  pub slave_retry_max : ℕ
  pub validity_clock_skew : ℕ
  -- SHA-256 of the canonical JSON of a payload
  pub fingerprint : StablePayload → String

-- `_slave_failures`, newest entry first: `get(slave, SlaveFailureState())`.
abbrev pub slave_failure_state : ℕ → List (ℕ × SlaveFailureState) → SlaveFailureState
slave_failure_state a [] = record { consecutive_failures = 0; retry_after = none }
slave_failure_state a ((k, v) ∷ d) = if k == a then v else slave_failure_state a d

-- `pop(slave, None)`
abbrev pub pop_failure : ℕ → List (ℕ × SlaveFailureState) → List (ℕ × SlaveFailureState)
pop_failure a [] = []
pop_failure a ((k, v) ∷ d) = if k == a then pop_failure a d else (k, v) ∷ pop_failure a d

unfoldable pub record_slave_failure :
    Config → ℕ → ℕ → List (ℕ × SlaveFailureState) → List (ℕ × SlaveFailureState)
record_slave_failure c now slave failures =
    let count = (slave_failure_state slave failures).consecutive_failures + 1 in
    (
      slave,
      record {
        consecutive_failures = count;
        retry_after =
            some (now + min (c.slave_retry_base * 2 ^ min (count - 1) 16) c.slave_retry_max);
      },
    )
    ∷ pop_failure slave failures

abbrev pub lookup {ℓ} : {V : Type ℓ} → String → List (String × V) → Option V
lookup k [] = none
lookup k ((j, v) ∷ d) = if str_eq j k then some v else lookup k d

abbrev pub insert {ℓ} : {V : Type ℓ} → String → V → List (String × V) → List (String × V)
insert k v [] = (k, v) ∷ []
insert k v ((j, w) ∷ d) = if str_eq j k then (k, v) ∷ d else (j, w) ∷ insert k v d
