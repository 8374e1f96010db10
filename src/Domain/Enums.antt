-- ===== src/Domain/Enums.antt =====
-- app/domain/enums.py: the enumerations, with the tests that the code makes by `==` and `in`.
use clock_ha_orchestrator.Prelude.{Bool, true, false}

pub data BookingStatus : Type 0 where
  expected checked_in checked_out canceled no_show unknown : BookingStatus

pub data AutomationPhase : Type 0 where
  vacant reserved awaiting_assignment pre_arrival occupied : AutomationPhase
  checkout_due manual_override disabled conflict unknown : AutomationPhase

pub data ControlMode : Type 0 where
  automatic manual off : ControlMode

pub data ManualHvacMode : Type 0 where
  off heat cool auto : ManualHvacMode

pub data AttentionReason : Type 0 where
  no_reason unknown_clock_status missing_physical_room overlapping_active_bookings : AttentionReason
  invalid_policy rejected_manual_command clock_sync_stale : AttentionReason

-- `status == BookingStatus.EXPECTED` and its siblings.
abbrev pub is_expected : BookingStatus → Bool
is_expected BookingStatus.expected = true
is_expected _ = false

abbrev pub is_checked_in : BookingStatus → Bool
is_checked_in BookingStatus.checked_in = true
is_checked_in _ = false

abbrev pub is_unknown : BookingStatus → Bool
is_unknown BookingStatus.unknown = true
is_unknown _ = false

-- `mode == ControlMode.AUTOMATIC`
abbrev pub is_automatic : ControlMode → Bool
is_automatic ControlMode.automatic = true
is_automatic _ = false

-- `mode == ManualHvacMode.OFF`
abbrev pub is_off : ManualHvacMode → Bool
is_off ManualHvacMode.off = true
is_off _ = false

-- `phase == AutomationPhase.MANUAL_OVERRIDE`
abbrev pub is_manual_override : AutomationPhase → Bool
is_manual_override AutomationPhase.manual_override = true
is_manual_override _ = false
