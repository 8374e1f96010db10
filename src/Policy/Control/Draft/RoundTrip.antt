-- ===== src/Policy/Control/Draft/RoundTrip.antt =====
-- From a draft to the row of an override, and back to the draft of the next command.
use clock_ha_orchestrator.Prelude.{ℕ, ◌+◌, ◌-◌, ◌*◌, ◌≡◌, false, some, arith}
use clock_ha_orchestrator.Domain.Enums.{is_automatic}
use clock_ha_orchestrator.Domain.Time.{minute}
use clock_ha_orchestrator.Domain.Models.{AutomationPolicy}
use clock_ha_orchestrator.G301.Registers.{round_half_even}
use clock_ha_orchestrator.Policy.Commands.{OverrideDuration, literal_minutes, clamp_target}
use clock_ha_orchestrator.Policy.Control.Rows.{duration_of_minutes}
use clock_ha_orchestrator.Policy.Control.Draft.{OverrideDraft, draft_of_latest}
use clock_ha_orchestrator.Persistence.Rows.{OverrideRow}

-- The minutes of a duration are found again between the start and the expiry.
pub minutes_lem :
    (d : OverrideDuration) (m now : ℕ)
    → literal_minutes d ≡ some m
    → duration_of_minutes (round_half_even ((now + m * minute) - now) minute) ≡ d
minutes_lem OverrideDuration.minutes_60 m now h = ground arith
minutes_lem OverrideDuration.minutes_240 m now h = ground arith
minutes_lem OverrideDuration.minutes_720 m now h = ground arith
minutes_lem OverrideDuration.until_checkout m now h = ground arith

module _ (policy : AutomationPolicy) (room_id now command_id : ℕ) (draft : OverrideDraft)
    (manual : is_automatic draft.control_mode ≡ false) where
  -- The draft that an override leaves, whose target the policy's bounds limit.
  abbrev clamped : OverrideDraft
  clamped = record draft { target_temperature_c = clamp_target policy draft.target_temperature_c }

  abbrev Kept : (ℕ → OverrideRow) → Type 0
  Kept make = (id : ℕ) → draft_of_latest (some (make id)) now ≡ clamped
