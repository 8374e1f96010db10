-- ===== src/Domain.antt =====
-- The domain: app/domain/enums.py, app/domain/models.py and app/domain/state_machine.py.
pub mod Enums
pub mod Time
pub mod Temperature
pub mod Models
pub mod Registry
pub mod StateMachine
