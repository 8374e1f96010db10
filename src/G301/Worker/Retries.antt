-- ===== src/G301/Worker/Retries.antt =====
-- How often an operation with retries can reach the bus. The count of the calls is any measure of
-- the bus that one call of the client raises by one at most and a sleep does not raise.
use clock_ha_orchestrator.Prelude.{
  ℕ, zero, suc, ◌+◌, ◌*◌, ◌≤◌, ◌≡◌, refl, inl, inr, List, [], ◌∷◌, ◌++◌, length, ltb, ◌&&◌, ◌^◌,
  arith, Bool-cases,
}
use clock_ha_orchestrator.Prelude.Results.{Result, ok, err, Result-cases}
use clock_ha_orchestrator.G301.Planner.{
  RegisterWrite, ReadbackExpectation, G301Plan, compare_readback,
}
use clock_ha_orchestrator.G301.Transport.{
  TransportError, timeout, retryable, Failure, timed_out, crashed, RegisterClient,
}
use clock_ha_orchestrator.G301.Worker.State.{RegisterWriteResult, Config}
use clock_ha_orchestrator.G301.Worker.Bus.{
  pause, retry_loop, with_retry, write_one, read_one, read_expectations, readback_loop, readback,
  write_all, is_nil,
}

module _ {Bus : Type 0} (client : RegisterClient Bus) (c : Config) (calls : Bus → ℕ)
    (sleeps : (d : ℕ) (b : Bus) → calls (client.sleep d b) ≤ calls b) where
  pause_bound :
      (left attempt delay : ℕ) (b : Bus) → calls (pause client c left attempt delay b) ≤ calls b
  pause_bound left attempt delay b = elim (Bool-cases (ltb 0 left && ltb 0 delay)) [
    | inl t ↦ rw (t, pause) (sleeps (delay * 2 ^ attempt) b)
    | inr f ↦ rw (f, pause) (ground arith)
  ]

  module _ {A : Type 0} (operation : Bus → Result Failure A × Bus)
      (once : (b : Bus) → calls (operation b).1 ≤ calls b + 1) where
    retry_step :
        (left attempt : ℕ) (last : TransportError) (b : Bus)
        → ((e : TransportError) (p : Bus)
            → calls (retry_loop client c left (attempt + 1) e operation p).1 ≤ calls p + left)
        → (r : Result Failure A) → (operation b).0 ≡ r
        → calls (retry_loop client c (suc left) attempt last operation b).1 ≤ calls b + suc left
    unfolding retry_loop
    retry_step left attempt last b rest r h = by_result r h
      where
        again :
            (e : TransportError)
            → calls
                (retry_loop client c left
                  (attempt + 1)
                  e
                  operation
                  (pause client c left attempt c.retry_backoff (operation b).1)).1
              ≤ calls b + suc left
        again e =
            let later = rest e (pause client c left attempt c.retry_backoff (operation b).1) in
            let wait = pause_bound left attempt c.retry_backoff (operation b).1 in
            let one = once b in omega arith

        by_result :
            (r : Result Failure A)
            → (operation b).0 ≡ r
            → calls (retry_loop client c (suc left) attempt last operation b).1 ≤ calls b + suc left
        by_result (ok a) h = rw (h, retry_loop) (let one = once b in omega arith)
        by_result (err timed_out) h = rw (h, retry_loop) (again timeout)
        by_result (err crashed) h = rw (h, retry_loop) (let one = once b in omega arith)
        by_result (err (Failure.failed e)) h = elim (Bool-cases (retryable e)) [
          | inl t ↦ rw (h, t, retry_loop) (again e)
          | inr f ↦ rw (h, f, retry_loop) (let one = once b in omega arith)
        ]

    retry_loop_bound :
        (left attempt : ℕ) (last : TransportError) (b : Bus)
        → calls (retry_loop client c left attempt last operation b).1 ≤ calls b + left
    unfolding retry_loop
    retry_loop_bound zero attempt last b = ground arith
    retry_loop_bound (suc left) attempt last b =
        retry_step left attempt last b (λ e p. retry_loop_bound left (attempt + 1) e p)
          (operation b).0 refl

    -- If a call of the operation raises a count of the bus by one at most, and a sleep does not
    -- raise it, then the operation with its retries raises it at most by the attempts of the
    -- settings.
    pub with_retry_bound :
        (b : Bus) → calls (with_retry client c operation b).1 ≤ calls b + c.max_operation_attempts
    unfolding with_retry
    with_retry_bound b = retry_loop_bound c.max_operation_attempts 0 timeout b

  -- The readback and the writes, where a call of the client counts for one.
  module _
      (read_once : (s a n : ℕ) (b : Bus)
        → calls (client.read_holding_registers s a n b).1 ≤ calls b + 1)
      (write_once : (s a v : ℕ) (b : Bus)
        → calls (client.write_register s a v b).1 ≤ calls b + 1) where
    -- If a call of the client raises a count of the bus by one at most, and a sleep does not raise
    -- it, then the writes of a plan raise it at most by the number of the writes times the attempts
    -- of the settings.
    write_all_bound :
        (slave : ℕ) (ws : List RegisterWrite) (done : List RegisterWriteResult) (b : Bus)
        → calls (write_all client c slave ws done b).2
          ≤ calls b + length ws * c.max_operation_attempts
    unfolding write_all write_one
    write_all_bound slave [] done b = ground arith
    write_all_bound slave (w ∷ ws) done b =
        let first =
          with_retry_bound (client.write_register slave w.address w.value)
            (write_once slave w.address w.value) b in
        elim (Result-cases (write_one client c slave w b).0) [
          | inl (e, h) ↦ rw (h, write_all) (omega arith)
          | inr (u, h) ↦
              let rest =
                write_all_bound slave ws
                  (done ++ record { address = w.address; value = w.value } ∷ [])
                  (write_one client c slave w b).1 in
              rw (h, write_all) (omega arith)
        ]

    read_expectations_bound :
        (slave : ℕ) (es : List ReadbackExpectation) (seen : List (ℕ × ℕ)) (b : Bus)
        → calls (read_expectations client c slave es seen b).1
          ≤ calls b + length es * c.max_operation_attempts
    unfolding read_expectations read_one
    read_expectations_bound slave [] seen b = ground arith
    read_expectations_bound slave (e ∷ es) seen b =
        let first =
          with_retry_bound (client.read_holding_registers slave e.address 1)
            (read_once slave e.address 1) b in
        elim (Result-cases (read_one client c slave e.address b).0) [
          | inl (x, h) ↦ rw (h, read_expectations) (omega arith)
          | inr (v, h) ↦
              let rest =
                read_expectations_bound slave es ((e.address, v) ∷ seen)
                  (read_one client c slave e.address b).1 in
              rw (h, read_expectations) (omega arith)
        ]

    readback_loop_bound :
        (left : ℕ) (plan : G301Plan) (seen : List (ℕ × ℕ)) (b : Bus)
        → calls (readback_loop client c left plan seen b).1
          ≤ calls b + left * (length plan.readback_expectations * c.max_operation_attempts)
    unfolding readback_loop
    readback_loop_bound zero plan seen b = ground arith
    readback_loop_bound (suc left) plan seen b =
        let pass = read_expectations client c plan.slave_address plan.readback_expectations [] b in
        let first = read_expectations_bound plan.slave_address plan.readback_expectations [] b in
        elim (Result-cases pass.0) [
          | inl (x, h) ↦ rw (h, readback_loop) (omega arith)
          | inr (o, h) ↦ elim (Bool-cases (is_nil (compare_readback plan o))) [
            | inl t ↦ rw (h, t, readback_loop) (omega arith)
            | inr f ↦
                let wait = pause_bound left 0 c.readback_delay pass.1 in
                let rest =
                  readback_loop_bound left plan o (pause client c left 0 c.readback_delay pass.1) in
                rw (h, f, readback_loop) (omega arith)
          ]
        ]

    -- If a call of the client raises a count of the bus by one at most, and a sleep does not raise
    -- it, then the readback of a plan raises it at most by the passes of the settings times the
    -- number of the expectations times the attempts of the settings.
    pub readback_bound :
        (plan : G301Plan) (b : Bus)
        → calls (readback client c plan b).1
          ≤ calls b
            + c.readback_attempts * (length plan.readback_expectations * c.max_operation_attempts)
    unfolding readback
    readback_bound plan b = readback_loop_bound c.readback_attempts plan [] b
