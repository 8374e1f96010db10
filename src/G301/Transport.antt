-- ===== src/G301/Transport.antt =====
-- app/g301_adapter/transport.py: the errors of a transport, and its two operations as an interface.
use clock_ha_orchestrator.Prelude.{ℕ, Bool, true, false, Option, List}
use clock_ha_orchestrator.Prelude.Results.{Result}

-- `G301TransportError` and its subclasses; the number is the Modbus exception code, if any.
pub data TransportError : Type 0 where
  timeout device_offline protocol_error transport_error : TransportError
  modbus_exception : Option ℕ → TransportError

-- `exc.retryable`
abbrev pub retryable : TransportError → Bool
retryable (modbus_exception _) = false
retryable protocol_error = false
retryable _ = true

-- How `asyncio.wait_for(operation(), timeout)` can end without a value: by its own TimeoutError, by
-- an error of the transport, or by another exception, which nothing in the adapter catches (a
-- `ValueError` of the client itself, which the planning would catch, is none of these).
pub data Failure : Type 0 where
  timed_out : Failure
  failed : TransportError → Failure
  crashed : Failure

-- `G301RegisterClient` over the state of the bus and the devices behind it, which each call changes,
-- with the clock that a call moves and the sleep between two attempts.
pub record RegisterClient (Bus : Type 0) : Type 0 where
  pub write_register : ℕ → ℕ → ℕ → Bus → Result Failure (Unit {0}) × Bus
  pub read_holding_registers : ℕ → ℕ → ℕ → Bus → Result Failure (List ℕ) × Bus
  pub clock : Bus → ℕ
  pub sleep : ℕ → Bus → Bus
