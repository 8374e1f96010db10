-- ===== src/Policy/Commands/Laws.antt =====
-- How long the override of an accepted dashboard command is in force.
use clock_ha_orchestrator.Prelude.{
  ℕ, ◌≡◌, ◌*◌, ◌≤◌, Bool, false, not, ◌&&◌, Option, none, some, String, arith,
}
use clock_ha_orchestrator.Prelude.Results.{ok}
use clock_ha_orchestrator.Domain.Enums.{is_automatic}
use clock_ha_orchestrator.Domain.Time.{ZoneInfo, DateTime, minute, plus, before}
use clock_ha_orchestrator.Domain.Models.{AutomationPolicy, ManualOverride, is_active}
use clock_ha_orchestrator.Policy.Commands.{
  ManualControlCommand, literal_minutes, command_to_override,
}

-- Whether a command holds at a time: it is manual or off, has a duration in minutes, and fewer than
-- those minutes have passed.
abbrev pub holds : ZoneInfo → ManualControlCommand → DateTime → DateTime → Bool
holds z c now later =
    not (is_automatic c.control_mode) && (elim (literal_minutes c.override_duration) [
      | none ↦ false
      | some m ↦ before later (plus z now (m * minute))
    ])

-- The override of an accepted command is in force exactly while the command holds; one that should
-- last until the checkout is never in force, since it carries no checkout time.
pub command_to_override-active :
    (z : ZoneInfo) (c : ManualControlCommand) (policy : AutomationPolicy) (now later : DateTime)
    (id : Option String) (o : ManualOverride)
    → command_to_override z c policy now ≡ ok o
    → is_active o later id ≡ holds z c now later
unfolding command_to_override is_active
command_to_override-active z c policy now later id o h = ground arith

-- An accepted command with a duration in minutes stays within the policy's maximum.
pub command_to_override-maximum :
    (z : ZoneInfo) (c : ManualControlCommand) (policy : AutomationPolicy) (now : DateTime)
    (o : ManualOverride) (m : ℕ)
    → command_to_override z c policy now ≡ ok o
    → is_automatic c.control_mode ≡ false
    → literal_minutes c.override_duration ≡ some m
    → (m ≤ policy.manual_override_max_minutes) × (o.expires_at ≡ some (plus z now (m * minute)))
unfolding command_to_override
command_to_override-maximum z c policy now o m h a e = ground arith
