-- ===== src/G301/Worker/Execute.antt =====
-- app/g301_adapter/worker.py: the execution of an intent, its verification, and `apply_intent`.
use clock_ha_orchestrator.Prelude.{
  ℕ, ◌+◌, ◌-◌, Bool, true, false, not, ◌&&◌, Option, none, some, List, [], ltb, leb, if◌then◌else◌,
}
use clock_ha_orchestrator.Prelude.Results.{Result, ok, err}
use clock_ha_orchestrator.Domain.Enums.{is_off}
use clock_ha_orchestrator.Domain.Time.{DateTime}
use clock_ha_orchestrator.Domain.Models.{DesiredRoomIntent}
use clock_ha_orchestrator.G301.Registers.{G301DeviceProfile}
use clock_ha_orchestrator.G301.Planner.{
  PlanError, codec, G301Plan, ReadbackMismatch, plan_room_intent, compare_readback,
}
use clock_ha_orchestrator.G301.Transport.{TransportError, modbus_exception, RegisterClient}
use clock_ha_orchestrator.G301.Transport
use clock_ha_orchestrator.G301.Worker.State.{
  AttemptPhase, ExecutionStatus, Message, RegisterWriteResult, IntentExecutionResult,
  SlaveFailureState, IntentAttempt, Config, slave_failure_state, pop_failure, record_slave_failure,
}
use clock_ha_orchestrator.G301.Worker.Bus.{
  Exc, transport, invalid_profile, uncaught, is_nil, read_device_profile, readback, write_all,
}

-- An exception that leaves `apply_intent`.
pub data Crash : Type 0 where
  uncaught_exception inconsistent_state : Crash

-- The worker while it handles an intent: the room's state with its attempt, and what is shared.
pub record Run (Bus : Type 0) : Type 0 where
  pub last_seen_version : Option ℕ
  pub last_terminal_version : Option ℕ
  pub last_applied_version : Option ℕ
  pub attempt : IntentAttempt
  pub failures : List (ℕ × SlaveFailureState)
  pub bus : Bus

abbrev pub result_with :
    DesiredRoomIntent
    → ExecutionStatus
    → Message
    → List RegisterWriteResult
    → List ReadbackMismatch
    → IntentExecutionResult
result_with intent status message writes mismatches = record {
  room_key = intent.room_key;
  intent_version = intent.intent_version;
  status = status;
  message = message;
  register_writes = writes;
  mismatches = mismatches;
  correlation_id = intent.correlation_id;
}

-- `_result` without writes and mismatches.
abbrev pub result_of : DesiredRoomIntent → ExecutionStatus → Message → IntentExecutionResult
result_of intent status message = result_with intent status message [] []

abbrev pub status_of_error : TransportError → ExecutionStatus
status_of_error Transport.device_offline = ExecutionStatus.device_offline
status_of_error Transport.timeout = ExecutionStatus.timeout
status_of_error (modbus_exception _) = ExecutionStatus.modbus_exception
status_of_error _ = ExecutionStatus.failed

abbrev pub later_than : Option ℕ → ℕ → Bool
later_than none now = false
later_than (some t) now = ltb now t

abbrev pub retry_time : SlaveFailureState → ℕ
retry_time s = elim s.retry_after [ none ↦ 0 | some t ↦ t ]

-- `intent.expires_at is not None and intent.expires_at <= now - skew`
abbrev pub is_expired : Option DateTime → ℕ → Bool
is_expired none limit = false
is_expired (some t) limit = leb t.instant limit

-- How the planning `try` ends.
pub data Planning : Type 0 where
  planned : G301Plan → Planning
  refused : PlanError → Planning
  broken : TransportError → Planning
  escaped : Planning

abbrev pub of_plan : Result PlanError G301Plan → Planning
of_plan (ok plan) = planned plan
of_plan (err e) = refused e

abbrev pub of_profile : DesiredRoomIntent → ℕ → Result Exc G301DeviceProfile → Planning
of_profile intent slave (ok p) = of_plan (plan_room_intent intent slave (some p))
of_profile intent slave (err (transport e)) = broken e
of_profile intent slave (err (invalid_profile e)) = refused (codec e)
of_profile intent slave (err uncaught) = escaped

module _ {Bus : Type 0} (client : RegisterClient Bus) (c : Config) where
  abbrev pub Outcome : Type 0
  Outcome = Result Crash IntentExecutionResult × Run Bus

  abbrev pub mark_terminal : Run Bus → IntentExecutionResult → Bool → Run Bus
  mark_terminal run result applied = record run {
    attempt = record (run.attempt) { phase = AttemptPhase.terminal; cached_result = some result };
    last_terminal_version = some run.attempt.version;
    last_applied_version = if applied then some run.attempt.version else run.last_applied_version;
  }

  abbrev pub fail_slave : ℕ → Run Bus → Run Bus
  fail_slave slave run = record run {
    failures = record_slave_failure c (client.clock run.bus) slave run.failures;
  }

  abbrev pub clear_slave : ℕ → Run Bus → Run Bus
  clear_slave slave run = record run { failures = pop_failure slave run.failures }

  abbrev pub set_phase : AttemptPhase → Run Bus → Run Bus
  set_phase phase run = record run { attempt = record (run.attempt) { phase = phase } }

  -- `_verify_attempt`: none is the answer to a mismatch that is not to end the attempt.
  unfoldable pub verify_attempt :
      DesiredRoomIntent
      → G301Plan
      → Bool
      → Run Bus
      → Result Crash (Option IntentExecutionResult) × Run Bus
  verify_attempt intent plan terminal_on_mismatch run =
      let (result, bus') = readback client c plan run.bus in
      let run' = record run { bus = bus' } in
      elim result [
        | err x ↦ elim x [
          | transport e ↦
              (let unconfirmed =
                  result_with intent ExecutionStatus.applied_unconfirmed (Message.unverified e)
                    run.attempt.completed_writes [] in
                (
                  ok (some unconfirmed),
                  if Transport.retryable e then run' else mark_terminal run' unconfirmed false,
                ))
          | _ ↦ (err uncaught_exception, run')
        ]
        | ok observed ↦
            (let mismatches = compare_readback plan observed in
              if is_nil mismatches
              then (let applied =
                    result_with intent ExecutionStatus.applied Message.no_message
                      run.attempt.completed_writes [] in
                  (ok (some applied), mark_terminal run' applied true))
              else if terminal_on_mismatch
              then (let mismatch =
                    result_with intent ExecutionStatus.readback_mismatch Message.state_mismatch
                      run.attempt.completed_writes mismatches in
                  (ok (some mismatch), mark_terminal run' mismatch false))
              else (ok none, run'))
      ]

  -- The bookkeeping of the slave after the first verification, by the status of its result.
  abbrev pub settle_slave : ℕ → ExecutionStatus → Run Bus → Run Bus
  settle_slave slave ExecutionStatus.applied run = clear_slave slave run
  settle_slave slave ExecutionStatus.readback_mismatch run = clear_slave slave run
  settle_slave slave ExecutionStatus.applied_unconfirmed run = fail_slave slave run
  settle_slave slave _ run = run

  abbrev pub finish_verification :
      ℕ → Result Crash (Option IntentExecutionResult) × Run Bus → Outcome
  finish_verification slave (err x, run) = (err x, run)
  finish_verification slave (ok none, run) = (err uncaught_exception, run)
  finish_verification slave (ok (some result), run) =
      (ok result, settle_slave slave result.status run)

  -- The writes of a plan, and the verification behind them.
  unfoldable pub write_phase : DesiredRoomIntent → ℕ → G301Plan → Run Bus → Outcome
  write_phase intent slave plan run =
      let (done, result, bus') =
        write_all client c slave plan.writes run.attempt.completed_writes run.bus in
      let run' = record run {
        bus = bus';
        attempt = record (run.attempt) {
          plan = some plan;
          phase = AttemptPhase.writing;
          completed_writes = done;
        };
      } in
      elim result [
        | ok _ ↦
            finish_verification slave
              (verify_attempt intent plan true (set_phase AttemptPhase.verification_pending run'))
        | err x ↦ elim x [
          | transport e ↦
              (let failure =
                  result_with intent (status_of_error e) (Message.of_transport_error e) done [] in
                (
                  ok failure,
                  if Transport.retryable e
                      then fail_slave slave (set_phase AttemptPhase.verification_pending run')
                      else mark_terminal run' failure false,
                ))
          | _ ↦ (err uncaught_exception, run')
        ]
      ]

  -- The planning `try`: the profile is read only if the HVAC is to run.
  unfoldable pub try_plan : DesiredRoomIntent → ℕ → Bus → Planning × Bus
  try_plan intent slave bus =
      if intent.hvac.enabled && not (is_off intent.hvac.mode)
      then (let (profile, bus') = read_device_profile client c slave bus in
          (of_profile intent slave profile, bus'))
      else (of_plan (plan_room_intent intent slave none), bus)

  -- The part of `_execute_intent` behind its three early returns.
  unfoldable pub plan_phase : DesiredRoomIntent → ℕ → Run Bus → Outcome
  plan_phase intent slave run =
      let (planning, bus') = try_plan intent slave run.bus in
      let run' = record run { bus = bus' } in
      elim planning [
        | planned plan ↦ write_phase intent slave plan run'
        | refused e ↦
            (let rejection = result_of intent ExecutionStatus.rejected (Message.of_plan_error e) in
              (ok rejection, mark_terminal run' rejection false))
        | broken e ↦
            (let failure = result_of intent (status_of_error e) (Message.of_transport_error e) in
              (
                ok failure,
                if Transport.retryable e
                    then fail_slave slave run'
                    else mark_terminal run' failure false,
              ))
        | escaped ↦ (err uncaught_exception, run')
      ]

  abbrev pub cooldown_result : DesiredRoomIntent → SlaveFailureState → IntentExecutionResult
  cooldown_result intent s =
      result_of intent ExecutionStatus.device_offline (Message.cooldown_until (retry_time s))

  -- The attempt as `_execute_intent` begins it.
  abbrev pub reset : Run Bus → Run Bus
  reset run = record run {
    attempt = record (run.attempt) {
      phase = AttemptPhase.retryable;
      plan = none;
      completed_writes = [];
    };
  }

  unfoldable pub execute_intent : DesiredRoomIntent → ℕ → Run Bus → Outcome
  execute_intent intent slave run =
      let now = client.clock run.bus in
      let fresh = reset run in
      let failure = slave_failure_state slave run.failures in
      if is_expired intent.expires_at (now - c.validity_clock_skew)
      then (let expiry = result_of intent ExecutionStatus.expired Message.intent_expired in
          (ok expiry, mark_terminal fresh expiry false))
      else if ltb (now + c.validity_clock_skew) intent.effective_from.instant
      then (ok (result_of intent ExecutionStatus.not_yet_effective Message.intent_in_future), fresh)
      else if later_than failure.retry_after now
      then (ok (cooldown_result intent failure), fresh)
      else plan_phase intent slave fresh

  abbrev pub settle_resumed : ℕ → ExecutionStatus → Run Bus → Run Bus
  settle_resumed slave ExecutionStatus.applied run = clear_slave slave run
  settle_resumed slave ExecutionStatus.applied_unconfirmed run = fail_slave slave run
  settle_resumed slave _ run = run

  -- What follows the verification of a resumed attempt: a mismatch executes the intent again.
  abbrev pub after_resume :
      DesiredRoomIntent → ℕ → Result Crash (Option IntentExecutionResult) × Run Bus → Outcome
  after_resume intent slave (err x, run) = (err x, run)
  after_resume intent slave (ok none, run) = execute_intent intent slave run
  after_resume intent slave (ok (some result), run) =
      (ok result, settle_resumed slave result.status run)

  unfoldable pub resume_verification : DesiredRoomIntent → ℕ → Run Bus → Outcome
  resume_verification intent slave run =
      let failure = slave_failure_state slave run.failures in
      if later_than failure.retry_after (client.clock run.bus)
      then (ok (cooldown_result intent failure), run)
      else elim run.attempt.plan [
        | none ↦ execute_intent intent slave run
        | some plan ↦ after_resume intent slave (verify_attempt intent plan false run)
      ]
