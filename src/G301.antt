-- ===== src/G301.antt =====
-- The offline G301 adapter: app/g301_adapter.
pub mod G301Register
pub mod Registers
pub mod Planner
pub mod Transport
pub mod Worker
pub mod Simulator
