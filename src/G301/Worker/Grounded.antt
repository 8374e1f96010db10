-- ===== src/G301/Worker/Grounded.antt =====
-- What the result "applied" of a resumed attempt rests on.
use clock_ha_orchestrator.Prelude.{
  ℕ, ◌≡◌, subst, ◌⊎◌, inl, inr, false, Option, none, some, arith, Bool-cases, Option-cases,
}
use clock_ha_orchestrator.Prelude.Results.{Result, ok, err}
use clock_ha_orchestrator.Domain.Models.{DesiredRoomIntent}
use clock_ha_orchestrator.G301.Planner.{G301Plan}
use clock_ha_orchestrator.G301.Transport.{RegisterClient}
use clock_ha_orchestrator.G301.Worker.State.{
  ExecutionStatus, IntentExecutionResult, Config, slave_failure_state,
}
use clock_ha_orchestrator.G301.Worker.Execute.{
  Crash, Run, verify_attempt, later_than, execute_intent, after_resume, resume_verification,
}
use clock_ha_orchestrator.G301.Worker.Confirmed.{
  Confirmed, Seen, Read, IfApplied, IfVerified, verify_attempt-Read, execute-Confirmed,
}

module _ {Bus : Type 0} (client : RegisterClient Bus) (c : Config) (intent : DesiredRoomIntent)
    (slave : ℕ) where
  -- What a resumed verification that answers "applied" rests on: the plan of the attempt and the
  -- writes that it had completed, and a readback that found every expectation of the plan.
  abbrev pub Resumed : Run Bus → IntentExecutionResult → Type 0
  Resumed run r =
      (plan : G301Plan) × (run.attempt.plan ≡ some plan)
      × (r.register_writes ≡ run.attempt.completed_writes)
      × Seen client c intent slave plan run.bus

  -- What "applied" of an attempt rests on that may have been resumed.
  abbrev pub Grounded : Run Bus → IntentExecutionResult → Type 0
  Grounded run r = Confirmed client c intent slave r ⊎ Resumed run r

  executed-Grounded :
      (run again : Run Bus)
      → IfApplied client c intent slave
          (Grounded run)
          (execute_intent client c intent slave again).0
  executed-Grounded run again =
      by_result (execute_intent client c intent slave again).0
        (execute-Confirmed client c intent slave again)
    where
      by_result :
          (o : Result Crash IntentExecutionResult)
          → IfApplied client c intent slave (Confirmed client c intent slave) o
          → IfApplied client c intent slave (Grounded run) o
      by_result (err x) k = tt
      by_result (ok r) k = λ a. inl (k a)

  resumed-Grounded :
      (run : Run Bus) (plan : G301Plan)
      → run.attempt.plan ≡ some plan
      → (o : Result Crash (Option IntentExecutionResult) × Run Bus)
      → IfVerified client c intent slave (Read client c intent slave plan run) o.0
      → IfApplied client c intent slave (Grounded run) (after_resume client c intent slave o).0
  resumed-Grounded run plan p (err x, end) v = tt
  resumed-Grounded run plan p (ok none, end) v = executed-Grounded run end
  resumed-Grounded run plan p (ok (some r), end) v = λ a. inr (plan, p, (v a).0, (v a).1)

  resume-cases :
      (P : IntentExecutionResult → Type 0) (run : Run Bus)
      → IfApplied client c intent slave P (execute_intent client c intent slave run).0
      → ((plan : G301Plan)
          → run.attempt.plan ≡ some plan
          → IfApplied client c intent slave P
              (after_resume client c intent slave
                (verify_attempt client c intent plan false run)).0)
      → IfApplied client c intent slave P (resume_verification client c intent slave run).0
  unfolding resume_verification
  resume-cases P run x v =
      elim (Bool-cases
        (later_than (slave_failure_state slave run.failures).retry_after (client.clock run.bus))) [
          | inl y ↦ rw (y, resume_verification) (λ k. ground arith)
          | inr n ↦ elim (Option-cases run.attempt.plan) [
            | inl e ↦ rw (n, e, resume_verification) x
            | inr (plan, e) ↦ rw (n, e, resume_verification) (v plan e)
          ]
        ]

  -- When a resumed attempt answers "applied", either it has executed the intent again, with what an
  -- execution that answers so rests on, or a readback from the bus found every expectation of the
  -- attempt's plan, with values that the client returned for the registers, and the reported writes
  -- are those that the attempt had completed, which need not be all of the plan.
  pub resume_verification-Grounded :
      (run run' : Run Bus) (r : IntentExecutionResult)
      → resume_verification client c intent slave run ≡ (ok r, run')
      → r.status ≡ ExecutionStatus.applied
      → Grounded run r
  resume_verification-Grounded run run' r h =
      subst (λ o. IfApplied client c intent slave (Grounded run) o.0) h
        (resume-cases (Grounded run) run (executed-Grounded run run) (λ plan e.
          resumed-Grounded run plan e (verify_attempt client c intent plan false run)
            (verify_attempt-Read client c intent slave plan false run)))
