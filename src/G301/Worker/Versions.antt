-- ===== src/G301/Worker/Versions.antt =====
-- What the handling of an intent keeps of the attempt, and what an applied intent leaves behind.
use clock_ha_orchestrator.Prelude.{
  ℕ, ◌+◌, ◌-◌, ◌≡◌, ◌≢◌, refl, ◌∙◌, inl, inr, Bool, true, false, Option, none, some, ltb, arith,
  Bool-cases, Option-cases,
}
use clock_ha_orchestrator.Prelude.Results.{Result, ok, err, Result-cases}
use clock_ha_orchestrator.Domain.Models.{DesiredRoomIntent}
use clock_ha_orchestrator.G301.Planner.{G301Plan, compare_readback}
use clock_ha_orchestrator.G301.Transport.{TransportError, RegisterClient}
use clock_ha_orchestrator.G301.Transport
use clock_ha_orchestrator.G301.Worker.State.{
  AttemptPhase, ExecutionStatus, IntentExecutionResult, IntentAttempt, Config, slave_failure_state,
}
use clock_ha_orchestrator.G301.Worker.Bus.{
  Exc, transport, invalid_profile, uncaught, is_nil, readback, write_all,
}
use clock_ha_orchestrator.G301.Worker.Execute.{
  Crash, Run, Planning, planned, refused, broken, escaped, status_of_error, verify_attempt,
  write_phase, try_plan, plan_phase, is_expired, reset, later_than, execute_intent,
  resume_verification, finish_verification, settle_slave, settle_resumed, after_resume,
}

-- The attempt answers for an applied intent: it is terminal, and keeps the result.
abbrev pub Keeps : IntentAttempt → IntentExecutionResult → Type 0
Keeps a r = (a.phase ≡ AttemptPhase.terminal) × (a.cached_result ≡ some r)

pub error-unapplied : (t : TransportError) → status_of_error t ≢ ExecutionStatus.applied
error-unapplied t k = ground arith

module _ {Bus : Type 0} (client : RegisterClient Bus) (c : Config)
    (intent : DesiredRoomIntent) where
  -- The run is still about the attempt it began with.
  abbrev pub Same : Run Bus → Run Bus → Type 0
  Same run run' =
      (run'.attempt.version ≡ run.attempt.version)
      × (run'.attempt.payload_fingerprint ≡ run.attempt.payload_fingerprint)
      × (run'.last_seen_version ≡ run.last_seen_version)

  abbrev pub Sound : Run Bus → IntentExecutionResult → Type 0
  Sound run' r =
      (r.correlation_id ≡ intent.correlation_id)
      × (r.status ≡ ExecutionStatus.applied → Keeps run'.attempt r)

  abbrev pub Settled : Run Bus → Result Crash IntentExecutionResult × Run Bus → Type 0
  Settled run (err x, run') = Same run run'
  Settled run (ok r, run') = Same run run' × Sound run' r

  abbrev pub Verified : Run Bus → Result Crash (Option IntentExecutionResult) × Run Bus → Type 0
  Verified run (err x, run') = Same run run'
  Verified run (ok none, run') = Same run run'
  Verified run (ok (some r), run') = Same run run' × Sound run' r

  verify_error :
      (plan : G301Plan) (b : Bool) (run : Run Bus) (e : Exc)
      → (readback client c plan run.bus).0 ≡ err e
      → Verified run (verify_attempt client c intent plan b run)
  unfolding verify_attempt
  verify_error plan b run (transport t) h = elim (Bool-cases (Transport.retryable t)) [
    | inl y ↦ rw (h, y, verify_attempt) ((refl, refl, refl), (refl, λ k. ground arith))
    | inr n ↦ rw (h, n, verify_attempt) ((refl, refl, refl), (refl, λ k. ground arith))
  ]
  verify_error plan b run (invalid_profile x) h = rw (h, verify_attempt) (refl, refl, refl)
  verify_error plan b run uncaught h = rw (h, verify_attempt) (refl, refl, refl)

  verify_attempt-Verified :
      (plan : G301Plan) (b : Bool) (run : Run Bus)
      → Verified run (verify_attempt client c intent plan b run)
  unfolding verify_attempt
  verify_attempt-Verified plan b run = elim (Result-cases (readback client c plan run.bus).0) [
    | inl (e, h) ↦ verify_error plan b run e h
    | inr (o, h) ↦ elim (Bool-cases (is_nil (compare_readback plan o))) [
      | inl y ↦ rw (h, y, verify_attempt) ((refl, refl, refl), (refl, λ k. (refl, refl)))
      | inr n ↦ elim (Bool-cases b) [
        | inl t ↦ rw (h, n, t, verify_attempt) ((refl, refl, refl), (refl, λ k. ground arith))
        | inr f ↦ rw (h, n, f, verify_attempt) (refl, refl, refl)
      ]
    ]
  ]

  finish-Settled :
      (slave : ℕ) (run run' : Run Bus) (o : Result Crash (Option IntentExecutionResult) × Run Bus)
      → Same run run'
      → Verified run' o
      → Settled run (finish_verification client c slave o)
  finish-Settled slave run run' (err x, end) same v = ground arith
  finish-Settled slave run run' (ok none, end) same v = ground arith
  finish-Settled slave run run' (ok (some r), end) same v = settle r.status refl
    where
      settle :
          (s : ExecutionStatus)
          → r.status ≡ s
          → Settled run (ok r, settle_slave client c slave s end)
      settle ExecutionStatus.applied e = ground arith
      settle ExecutionStatus.readback_mismatch e = ground arith
      settle ExecutionStatus.applied_unconfirmed e = ground arith
      settle _ e = ground arith

  write_error :
      (slave : ℕ) (plan : G301Plan) (run : Run Bus) (e : Exc)
      → (write_all client c slave plan.writes run.attempt.completed_writes run.bus).1 ≡ err e
      → Settled run (write_phase client c intent slave plan run)
  unfolding write_phase
  write_error slave plan run (transport t) h = elim (Bool-cases (Transport.retryable t)) [
    | inl y ↦ rw (h, y, write_phase) ((refl, refl, refl), (refl, λ k. absurd (error-unapplied t k)))
    | inr n ↦ rw (h, n, write_phase) ((refl, refl, refl), (refl, λ k. (refl, refl)))
  ]
  write_error slave plan run (invalid_profile x) h = rw (h, write_phase) (refl, refl, refl)
  write_error slave plan run uncaught h = rw (h, write_phase) (refl, refl, refl)

  -- The run when the last write is done.
  abbrev pub written : ℕ → G301Plan → Run Bus → Run Bus
  written slave plan run =
      let (done, result, bus') =
        write_all client c slave plan.writes run.attempt.completed_writes run.bus in
      record run {
        bus = bus';
        attempt = record (run.attempt) {
          plan = some plan;
          phase = AttemptPhase.verification_pending;
          completed_writes = done;
        };
      }

  write_phase-Settled :
      (slave : ℕ) (plan : G301Plan) (run : Run Bus)
      → Settled run (write_phase client c intent slave plan run)
  unfolding write_phase
  write_phase-Settled slave plan run =
      elim (Result-cases
        (write_all client c slave plan.writes run.attempt.completed_writes run.bus).1) [
          | inl (e, h) ↦ write_error slave plan run e h
          | inr (u, h) ↦
              rw (h, write_phase)
                (finish-Settled slave run (written slave plan run) _ (refl, refl, refl)
                  (verify_attempt-Verified plan true (written slave plan run)))
        ]

  plan_phase-Settled :
      (slave : ℕ) (run : Run Bus) → Settled run (plan_phase client c intent slave run)
  unfolding plan_phase
  plan_phase-Settled slave run = by_planning (try_plan client c intent slave run.bus).0 refl
    where
      by_planning :
          (p : Planning)
          → (try_plan client c intent slave run.bus).0 ≡ p
          → Settled run (plan_phase client c intent slave run)
      by_planning (planned plan) h =
          rw (h, plan_phase)
            (write_phase-Settled slave plan
              (record run { bus = (try_plan client c intent slave run.bus).1 }))
      by_planning (refused e) h = rw (h, plan_phase) ((refl, refl, refl), (refl, λ k. ground arith))
      by_planning (broken t) h = elim (Bool-cases (Transport.retryable t)) [
        | inl y ↦
            rw (h, y, plan_phase) ((refl, refl, refl), (refl, λ k. absurd (error-unapplied t k)))
        | inr n ↦ rw (h, n, plan_phase) ((refl, refl, refl), (refl, λ k. (refl, refl)))
      ]
      by_planning escaped h = rw (h, plan_phase) (refl, refl, refl)

  pub execute_intent-Settled :
      (slave : ℕ) (run : Run Bus) → Settled run (execute_intent client c intent slave run)
  unfolding execute_intent
  execute_intent-Settled slave run =
      let now = client.clock run.bus in
      elim (Bool-cases (is_expired intent.expires_at (now - c.validity_clock_skew))) [
        | inl y ↦ rw (y, execute_intent) ((refl, refl, refl), (refl, λ k. ground arith))
        | inr n ↦
            elim (Bool-cases (ltb (now + c.validity_clock_skew) intent.effective_from.instant)) [
              | inl y ↦ rw (n, y, execute_intent) ((refl, refl, refl), (refl, λ k. ground arith))
              | inr m ↦
                  elim (Bool-cases
                    (later_than (slave_failure_state slave run.failures).retry_after now)) [
                      | inl y ↦
                          rw (n, m, y, execute_intent)
                            ((refl, refl, refl), (refl, λ k. ground arith))
                      | inr l ↦
                          rw (n, m, l, execute_intent)
                            (plan_phase-Settled slave (reset client c run))
                    ]
            ]
      ]

  Settled-extend :
      (run end : Run Bus) (o : Result Crash IntentExecutionResult × Run Bus)
      → Same run end
      → Settled end o
      → Settled run o
  Settled-extend run end (err x, run') s h = (h.0 ∙ s.0, h.1 ∙ s.1, h.2 ∙ s.2)
  Settled-extend run end (ok r, run') s h = ((h.0.0 ∙ s.0, h.0.1 ∙ s.1, h.0.2 ∙ s.2), h.1)

  resumed-Settled :
      (slave : ℕ) (run : Run Bus) (o : Result Crash (Option IntentExecutionResult) × Run Bus)
      → Verified run o
      → Settled run (after_resume client c intent slave o)
  resumed-Settled slave run (err x, end) v = ground arith
  resumed-Settled slave run (ok none, end) v =
      Settled-extend run end _ v (execute_intent-Settled slave end)
  resumed-Settled slave run (ok (some r), end) v = settle r.status refl
    where
      settle :
          (s : ExecutionStatus)
          → r.status ≡ s
          → Settled run (ok r, settle_resumed client c slave s end)
      settle ExecutionStatus.applied e = ground arith
      settle ExecutionStatus.applied_unconfirmed e = ground arith
      settle _ e = ground arith

  pub resume_verification-Settled :
      (slave : ℕ) (run : Run Bus) → Settled run (resume_verification client c intent slave run)
  unfolding resume_verification
  resume_verification-Settled slave run =
      elim (Bool-cases
        (later_than (slave_failure_state slave run.failures).retry_after (client.clock run.bus))) [
          | inl y ↦ rw (y, resume_verification) ((refl, refl, refl), (refl, λ k. ground arith))
          | inr n ↦ elim (Option-cases run.attempt.plan) [
            | inl e ↦ rw (n, e, resume_verification) (execute_intent-Settled slave run)
            | inr (plan, e) ↦
                rw (n, e, resume_verification)
                  (resumed-Settled slave run _ (verify_attempt-Verified plan false run))
          ]
        ]
