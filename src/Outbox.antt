-- ===== src/Outbox.antt =====
-- The transactional outbox: app/outbox/service.py.
pub mod Store
pub mod Publisher
pub mod Round
