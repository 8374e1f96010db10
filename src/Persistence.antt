-- ===== src/Persistence.antt =====
-- The tables of app/persistence/models.py, and what a session does with them.
pub mod Rows
pub mod Session
