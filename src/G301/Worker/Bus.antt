-- ===== src/G301/Worker/Bus.antt =====
-- app/g301_adapter/worker.py: the operations on the bus, with their retries.
use clock_ha_orchestrator.Prelude.{
  ℕ, zero, suc, ◌+◌, ◌*◌, ◌^◌, Bool, true, false, ◌&&◌, List, [], ◌∷◌, ◌++◌, ltb, if◌then◌else◌,
}
use clock_ha_orchestrator.Prelude.Results.{Result, ok, err}
use clock_ha_orchestrator.G301.G301Register
use clock_ha_orchestrator.G301.Registers.{G301DeviceProfile, CodecError, build_device_profile}
use clock_ha_orchestrator.G301.Planner.{
  RegisterWrite, ReadbackExpectation, G301Plan, compare_readback,
}
use clock_ha_orchestrator.G301.Transport.{
  TransportError, timeout, protocol_error, retryable, Failure, timed_out, crashed, RegisterClient,
}
use clock_ha_orchestrator.G301.Worker.State.{RegisterWriteResult, Config}

-- What can leave a bus operation: a transport error, a refused profile, or any other exception.
pub data Exc : Type 0 where
  transport : TransportError → Exc
  invalid_profile : CodecError → Exc
  uncaught : Exc

abbrev pub is_nil {ℓ} : {A : Type ℓ} → List A → Bool
is_nil [] = true
is_nil (_ ∷ _) = false

module _ {Bus : Type 0} (client : RegisterClient Bus) (c : Config) where
  abbrev pub Op : Type 0 → Type 0
  Op A = Bus → Result Exc A × Bus

  -- The exponential pause before the next attempt, if there is one.
  abbrev pub pause : ℕ → ℕ → ℕ → Bus → Bus
  pause left attempt delay bus =
      if ltb 0 left && ltb 0 delay then client.sleep (delay * 2 ^ attempt) bus else bus

  -- `_with_retry`, by the attempts left, the attempts made and the last error.
  unfoldable pub retry_loop :
      {A : Type 0} → ℕ → ℕ → TransportError → (Bus → Result Failure A × Bus) → Op A
  retry_loop zero attempt last operation bus = (err (transport last), bus)
  retry_loop (suc left) attempt last operation bus =
      let (result, bus') = operation bus in
      elim result [
        | ok a ↦ (ok a, bus')
        | err f ↦ elim f [
          | timed_out ↦
              retry_loop left (attempt + 1) timeout operation
                (pause left attempt c.retry_backoff bus')
          | Failure.failed e ↦ elim (retryable e) [
            | false ↦ (err (transport e), bus')
            | true ↦
                retry_loop left (attempt + 1) e operation (pause left attempt c.retry_backoff bus')
          ]
          | crashed ↦ (err uncaught, bus')
        ]
      ]

  -- The constructor makes sure of one attempt at least, so the `timeout` here is never raised.
  unfoldable pub with_retry : {A : Type 0} → (Bus → Result Failure A × Bus) → Op A
  unfolding retry_loop
  with_retry operation = retry_loop c.max_operation_attempts 0 timeout operation

  unfoldable pub write_one : ℕ → RegisterWrite → Op (Unit {0})
  unfolding with_retry
  write_one slave w = with_retry (client.write_register slave w.address w.value)

  abbrev pub single : Result Exc (List ℕ) → Result Exc ℕ
  single (err e) = err e
  single (ok []) = err (transport protocol_error)
  single (ok (v ∷ [])) = ok v
  single (ok (v ∷ w ∷ vs)) = err (transport protocol_error)

  unfoldable pub read_one : ℕ → ℕ → Op ℕ
  unfolding with_retry
  read_one slave address bus =
      let (values, bus') = with_retry (client.read_holding_registers slave address 1) bus in
      (single values, bus')

  abbrev pub profile_of : ℕ → Result Exc (List ℕ) → Result Exc G301DeviceProfile
  profile_of capabilities (err e) = err e
  profile_of capabilities (ok (limitation ∷ upper ∷ lower ∷ [])) =
      elim (build_device_profile capabilities limitation upper lower) [
        | ok p ↦ ok p
        | err e ↦ err (invalid_profile e)
      ]
  profile_of capabilities (ok _) = err (transport protocol_error)

  unfoldable pub read_device_profile : ℕ → Op G301DeviceProfile
  unfolding read_one with_retry
  read_device_profile slave bus =
      let (first, bus₁) = read_one slave G301Register.capabilities bus in
      elim first [
        | err e ↦ (err e, bus₁)
        | ok capabilities ↦
            (let (limits, bus₂) =
                with_retry (client.read_holding_registers slave G301Register.mode_limitation 3)
                  bus₁ in
              (profile_of capabilities limits, bus₂))
      ]

  -- One pass of the readback: the entries in the order of the expectations, and the first error.
  -- A later entry of a key wins, so the newest stands first.
  unfoldable pub read_expectations : ℕ → List ReadbackExpectation → List (ℕ × ℕ) → Op (List (ℕ × ℕ))
  unfolding read_one
  read_expectations slave [] observed bus = (ok observed, bus)
  read_expectations slave (e ∷ es) observed bus =
      let (value, bus') = read_one slave e.address bus in
      elim value [
        | err x ↦ (err x, bus')
        | ok v ↦ read_expectations slave es ((e.address, v) ∷ observed) bus'
      ]

  -- `_readback`, by the attempts left; without any it returns what was observed last.
  unfoldable pub readback_loop : ℕ → G301Plan → List (ℕ × ℕ) → Op (List (ℕ × ℕ))
  unfolding read_expectations compare_readback
  readback_loop zero plan observed bus = (ok observed, bus)
  readback_loop (suc left) plan observed bus =
      let (result, bus') = read_expectations plan.slave_address plan.readback_expectations [] bus in
      elim result [
        | err x ↦ (err x, bus')
        | ok seen ↦ elim (is_nil (compare_readback plan seen)) [
          | true ↦ (ok seen, bus')
          | false ↦ readback_loop left plan seen (pause left 0 c.readback_delay bus')
        ]
      ]

  unfoldable pub readback : G301Plan → Op (List (ℕ × ℕ))
  unfolding readback_loop
  readback plan = readback_loop c.readback_attempts plan []

  -- The loop of the writes: the writes that were completed, and how the loop ended.
  unfoldable pub write_all :
      ℕ
      → List RegisterWrite
      → List RegisterWriteResult
      → Bus
      → List RegisterWriteResult × Result Exc (Unit {0}) × Bus
  unfolding write_one
  write_all slave [] done bus = (done, ok tt, bus)
  write_all slave (w ∷ ws) done bus =
      let (result, bus') = write_one slave w bus in
      elim result [
        | err e ↦ (done, err e, bus')
        | ok _ ↦
            write_all slave ws (done ++ record { address = w.address; value = w.value } ∷ []) bus'
      ]
