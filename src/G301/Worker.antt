-- ===== src/G301/Worker.antt =====
-- app/g301_adapter/worker.py, the worker of one entrance: its state, its bus operations, and the
-- handling of an intent. `_bus_lock` lets one intent through at a time, so a call is one function of
-- the worker's state and of the bus.
pub mod State
pub mod Bus
pub mod Execute
pub mod Apply
pub mod Versions
pub mod Replies
pub mod Retries
pub mod Attempts
pub mod Confirmed
pub mod Grounded
pub mod Advance
