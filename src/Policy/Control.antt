-- ===== src/Policy/Control.antt =====
-- app/policy/control.py: the manual commands of the dashboard, from the text of an MQTT message to
-- the row of an override.
pub mod Text
pub mod Draft
pub mod Rows
pub mod Service
