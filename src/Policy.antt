-- ===== src/Policy.antt =====
-- The policy package: app/policy/engine.py and app/policy/commands.py.
pub mod Engine
pub mod Commands
pub mod Control
