-- ===== src/G301/Worker/Confirmed.antt =====
-- What the result "applied" of an execution rests on.
use clock_ha_orchestrator.Prelude.{
  ℕ, ◌+◌, ◌-◌, ◌≡◌, refl, ap, subst, sym, ◌∙◌, inl, inr, Bool, true, not, ◌&&◌, Option, none, some,
  List, [], ◌∷◌, ◌++◌, map, All, ltb, arith, Bool-cases, List-cases,
}
use clock_ha_orchestrator.Prelude.Results.{Result, ok, err, Result-cases}
use clock_ha_orchestrator.Domain.Enums.{is_off}
use clock_ha_orchestrator.Domain.Models.{DesiredRoomIntent}
use clock_ha_orchestrator.G301.Planner.{
  PlanError, RegisterWrite, G301Plan, plan_room_intent, compare_readback, get,
}
use clock_ha_orchestrator.G301.Planner.Laws.{compare_readback_iff}
use clock_ha_orchestrator.G301.Registers.{G301DeviceProfile}
use clock_ha_orchestrator.G301.Transport.{RegisterClient}
use clock_ha_orchestrator.G301.Worker.State.{
  ExecutionStatus, RegisterWriteResult, IntentExecutionResult, Config, slave_failure_state,
}
use clock_ha_orchestrator.G301.Worker.Bus.{
  Exc, transport, invalid_profile, uncaught, readback, write_one, write_all, read_device_profile,
}
use clock_ha_orchestrator.G301.Worker.Execute.{
  Crash, Run, Planning, planned, refused, broken, escaped, of_plan, of_profile, verify_attempt,
  write_phase, try_plan, plan_phase, is_expired, reset, later_than, execute_intent,
  finish_verification,
}
use clock_ha_orchestrator.G301.Worker.Attempts.{
  Written, WasRead, write_all-Written, readback-WasRead,
}
use clock_ha_orchestrator.G301.Worker.Versions.{written, error-unapplied}

abbrev pub as_result : RegisterWrite → RegisterWriteResult
as_result w = record { address = w.address; value = w.value }

++-assoc {ℓ} : {A : Type ℓ} (a b c : List A) → (a ++ b) ++ c ≡ a ++ (b ++ c)
++-assoc [] b c = refl
++-assoc (x ∷ a) b c = ap (λ l. x ∷ l) (++-assoc a b c)

++-nil {ℓ} : {A : Type ℓ} (a : List A) → a ++ [] ≡ a
++-nil [] = refl
++-nil (x ∷ a) = ap (λ l. x ∷ l) (++-nil a)

module _ {Bus : Type 0} (client : RegisterClient Bus) (c : Config) where
  -- Writes that all succeed are reported in the order of the plan.
  write_all_complete :
      (slave : ℕ) (ws : List RegisterWrite) (done : List RegisterWriteResult) (b : Bus)
      (u : Unit {0})
      → (write_all client c slave ws done b).1 ≡ ok u
      → (write_all client c slave ws done b).0 ≡ done ++ map as_result ws
  unfolding write_all
  write_all_complete slave [] done b u h = sym (++-nil done)
  write_all_complete slave (w ∷ ws) done b u h =
      elim (Result-cases (write_one client c slave w b).0) [
        | inl (e, k) ↦ absurd (let no_value : err e ≡ ok u = rw (k, write_all) at h in ground arith)
        | inr (v, k) ↦
            rw (k, write_all)
              (write_all_complete slave ws (done ++ as_result w ∷ [])
                  (write_one client c slave w b).1 u (rw (k, write_all) at h)
                ∙ ++-assoc done (as_result w ∷ []) (map as_result ws))
      ]

  module _ (intent : DesiredRoomIntent) (slave : ℕ) where
    -- A readback from the bus found every expectation of the plan, and the client returned each of
    -- these values for its register.
    abbrev pub Seen : G301Plan → Bus → Type 0
    Seen plan b =
        (observed : List (ℕ × ℕ)) × ((readback client c plan b).0 ≡ ok observed)
        × All (λ e. get e.address observed ≡ some e.expected) plan.readback_expectations
        × All (λ e. WasRead client c plan.slave_address e.address e.expected)
            plan.readback_expectations

    -- A plan of the intent is behind the result: the client took every write of it, in order, and
    -- from the bus that this left a readback found every expectation of it.
    abbrev pub Confirmed : IntentExecutionResult → Type 0
    Confirmed r =
        (profile : Option G301DeviceProfile) × (plan : G301Plan) × (start : Bus) × (end : Bus)
        × (plan_room_intent intent slave profile ≡ ok plan)
        × (r.register_writes ≡ map as_result plan.writes)
        × Written client c slave plan.writes start end
        × Seen plan end

    abbrev pub IfApplied :
        (IntentExecutionResult → Type 0) → Result Crash IntentExecutionResult → Type 0
    IfApplied P (err x) = Unit {0}
    IfApplied P (ok r) = r.status ≡ ExecutionStatus.applied → P r

    abbrev pub IfVerified :
        (IntentExecutionResult → Type 0) → Result Crash (Option IntentExecutionResult) → Type 0
    IfVerified P (err x) = Unit {0}
    IfVerified P (ok none) = Unit {0}
    IfVerified P (ok (some r)) = r.status ≡ ExecutionStatus.applied → P r

    IfVerified-mono :
        (P Q : IntentExecutionResult → Type 0) (o : Result Crash (Option IntentExecutionResult))
        → ((r : IntentExecutionResult) → P r → Q r)
        → IfVerified P o
        → IfVerified Q o
    IfVerified-mono P Q (err x) f v = tt
    IfVerified-mono P Q (ok none) f v = tt
    IfVerified-mono P Q (ok (some r)) f v = λ k. f r (v k)

    -- What a verification alone shows.
    abbrev pub Read : G301Plan → Run Bus → IntentExecutionResult → Type 0
    Read plan run r = (r.register_writes ≡ run.attempt.completed_writes) × Seen plan run.bus

    verify_error :
        (plan : G301Plan) (b : Bool) (run : Run Bus) (e : Exc)
        → (readback client c plan run.bus).0 ≡ err e
        → IfVerified (Read plan run) (verify_attempt client c intent plan b run).0
    unfolding verify_attempt
    verify_error plan b run (transport t) h = rw (h, verify_attempt) (λ k. ground arith)
    verify_error plan b run (invalid_profile x) h = rw (h, verify_attempt) tt
    verify_error plan b run uncaught h = rw (h, verify_attempt) tt

    pub verify_attempt-Read :
        (plan : G301Plan) (b : Bool) (run : Run Bus)
        → IfVerified (Read plan run) (verify_attempt client c intent plan b run).0
    unfolding verify_attempt
    verify_attempt-Read plan b run = elim (Result-cases (readback client c plan run.bus).0) [
      | inl (e, h) ↦ verify_error plan b run e h
      | inr (o, h) ↦ elim (List-cases (compare_readback plan o)) [
        | inl y ↦
            rw (h, y, verify_attempt)
              (λ k. (
                refl,
                (
                  o,
                  h,
                  (compare_readback_iff plan o).0 y,
                  readback-WasRead client c plan o run.bus h plan.readback_expectations
                      ((compare_readback_iff plan o).0 y),
                ),
              ))
        | inr (m, ms, n) ↦ elim (Bool-cases b) [
          | inl t ↦ rw (h, n, t, verify_attempt) (λ k. ground arith)
          | inr f ↦ rw (h, n, f, verify_attempt) tt
        ]
      ]
    ]

    finish-status :
        (P : IntentExecutionResult → Type 0)
        (o : Result Crash (Option IntentExecutionResult) × Run Bus)
        → IfVerified P o.0
        → IfApplied P (finish_verification client c slave o).0
    finish-status P (err x, end) v = tt
    finish-status P (ok none, end) v = tt
    finish-status P (ok (some r), end) v = v

    write_error :
        (P : IntentExecutionResult → Type 0) (plan : G301Plan) (run : Run Bus) (e : Exc)
        → (write_all client c slave plan.writes run.attempt.completed_writes run.bus).1 ≡ err e
        → IfApplied P (write_phase client c intent slave plan run).0
    unfolding write_phase
    write_error P plan run (transport t) h = rw (h, write_phase) (λ k. absurd (error-unapplied t k))
    write_error P plan run (invalid_profile x) h = rw (h, write_phase) tt
    write_error P plan run uncaught h = rw (h, write_phase) tt

    write_phase-Confirmed :
        (profile : Option G301DeviceProfile) (plan : G301Plan) (run : Run Bus)
        → plan_room_intent intent slave profile ≡ ok plan
        → run.attempt.completed_writes ≡ []
        → IfApplied Confirmed (write_phase client c intent slave plan run).0
    unfolding write_phase
    write_phase-Confirmed profile plan run p clean =
        elim (Result-cases
          (write_all client c slave plan.writes run.attempt.completed_writes run.bus).1) [
            | inl (e, h) ↦ write_error Confirmed plan run e h
            | inr (u, h) ↦
                let end = written client c intent slave plan run in
                let complete : end.attempt.completed_writes ≡ map as_result plan.writes =
                  write_all_complete slave plan.writes run.attempt.completed_writes run.bus u h
                  ∙ ap (λ l. l ++ map as_result plan.writes) clean in
                let through : Written client c slave plan.writes run.bus end.bus =
                  write_all-Written client c slave plan.writes run.attempt.completed_writes u
                    run.bus h in
                rw (h, write_phase)
                  (finish-status Confirmed (verify_attempt client c intent plan true end) (
                    IfVerified-mono _ _ (verify_attempt client c intent plan true end).0
                      (λ r (w, seen).
                        (profile, plan, run.bus, end.bus, p, w ∙ complete, through, seen))
                      (verify_attempt-Read plan true end)))
          ]

    of_plan-planned :
        (r : Result PlanError G301Plan) (plan : G301Plan) → of_plan r ≡ planned plan → r ≡ ok plan
    of_plan-planned (ok p) plan h = ground arith
    of_plan-planned (err e) plan h = ground arith

    of_profile-planned :
        (r : Result Exc G301DeviceProfile) (plan : G301Plan)
        → of_profile intent slave r ≡ planned plan
        → (profile : Option G301DeviceProfile) × (plan_room_intent intent slave profile ≡ ok plan)
    of_profile-planned (ok p) plan h = (some p, of_plan-planned _ plan h)
    of_profile-planned (err (transport e)) plan h = absurd (ground arith)
    of_profile-planned (err (invalid_profile e)) plan h = absurd (ground arith)
    of_profile-planned (err uncaught) plan h = absurd (ground arith)

    planned-profile :
        (plan : G301Plan) (b : Bus)
        → (try_plan client c intent slave b).0 ≡ planned plan
        → (profile : Option G301DeviceProfile) × (plan_room_intent intent slave profile ≡ ok plan)
    unfolding try_plan
    planned-profile plan b h =
        elim (Bool-cases (intent.hvac.enabled && not (is_off intent.hvac.mode))) [
          | inl t ↦
              of_profile-planned (read_device_profile client c slave b).0 plan
                (rw (t, try_plan) at h)
          | inr f ↦ (none, of_plan-planned _ plan (rw (f, try_plan) at h))
        ]

    plan_phase-Confirmed :
        (run : Run Bus)
        → run.attempt.completed_writes ≡ []
        → IfApplied Confirmed (plan_phase client c intent slave run).0
    unfolding plan_phase
    plan_phase-Confirmed run clean = by_planning (try_plan client c intent slave run.bus).0 refl
      where
        by_planning :
            (p : Planning)
            → (try_plan client c intent slave run.bus).0 ≡ p
            → IfApplied Confirmed (plan_phase client c intent slave run).0
        by_planning (planned plan) h =
            let (profile, ok_plan) = planned-profile plan run.bus h in
            rw (h, plan_phase)
              (write_phase-Confirmed profile plan
                (record run { bus = (try_plan client c intent slave run.bus).1 }) ok_plan clean)
        by_planning (refused e) h = rw (h, plan_phase) (λ k. ground arith)
        by_planning (broken t) h = rw (h, plan_phase) (λ k. absurd (error-unapplied t k))
        by_planning escaped h = rw (h, plan_phase) tt

    pub execute-Confirmed :
        (run : Run Bus) → IfApplied Confirmed (execute_intent client c intent slave run).0
    unfolding execute_intent
    execute-Confirmed run =
        let now = client.clock run.bus in
        elim (Bool-cases (is_expired intent.expires_at (now - c.validity_clock_skew))) [
          | inl y ↦ rw (y, execute_intent) (λ k. ground arith)
          | inr n ↦
              elim (Bool-cases (ltb (now + c.validity_clock_skew) intent.effective_from.instant)) [
                | inl y ↦ rw (n, y, execute_intent) (λ k. ground arith)
                | inr m ↦
                    elim (Bool-cases
                      (later_than (slave_failure_state slave run.failures).retry_after now)) [
                        | inl y ↦ rw (n, m, y, execute_intent) (λ k. ground arith)
                        | inr l ↦
                            rw (n, m, l, execute_intent)
                              (plan_phase-Confirmed (reset client c run) refl)
                      ]
              ]
        ]

    -- When the execution of an intent answers "applied", there is a plan of the intent whose writes
    -- are the reported ones; the register client took each of these writes, in their order; and a
    -- readback from the bus that the last one left found every expectation of the plan, with values
    -- that the client returned for the registers.
    pub execute_intent-Confirmed :
        (run run' : Run Bus) (r : IntentExecutionResult)
        → execute_intent client c intent slave run ≡ (ok r, run')
        → r.status ≡ ExecutionStatus.applied
        → Confirmed r
    execute_intent-Confirmed run run' r h =
        subst (λ o. IfApplied Confirmed o.0) h (execute-Confirmed run)
