-- ===== src/Tests.antt =====
-- Concrete rooms, tables and buses at which the theorems are applied.
pub mod Rooms
pub mod Intents
pub mod Rows
pub mod Adapter
pub mod Control
pub mod Sync
