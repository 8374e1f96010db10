-- ===== src/Policy/Control/Draft/Laws.antt =====
-- What the row of every accepted command satisfies, given the same of the row before it.
use clock_ha_orchestrator.Prelude.{
  ◌==◌, ℕ, ◌+◌, ◌*◌, ◌<◌, ◌≡◌, refl, sym, subst, Bool, true, false, Option, none, some, List,
  String, ltb, ltb→lt, if◌then◌else◌, All, if-holds, Present, arith,
}
use clock_ha_orchestrator.Prelude.Results.{Returns, Returns-bind, Returns-ok}
use clock_ha_orchestrator.Domain.Enums.{
  AutomationPhase, ControlMode, ManualHvacMode, is_automatic, is_off,
}
use clock_ha_orchestrator.Domain.Time.{minute}
use clock_ha_orchestrator.Domain.Temperature.{Float}
use clock_ha_orchestrator.Domain.Models.{AutomationPolicy, PropertyPolicy, HotelPolicy}
use clock_ha_orchestrator.Policy.Commands.{OverrideDuration, literal_minutes, clamp_target}
use clock_ha_orchestrator.Policy.Engine.Totality.{Coherent}
use clock_ha_orchestrator.Policy.Control.Text.{
  payload_text, control_mode_of, manual_hvac_mode_of, temperature_of, duration_of, boolean_payload,
}
use clock_ha_orchestrator.Policy.Control.Rows.{
  latest_override_row, latest_room_state, override_row_is_active,
}
use clock_ha_orchestrator.Policy.Control.Draft.{
  ControlField, field_of, OverrideDraft, default_override_draft, draft_of_row, draft_of_latest,
  mode_or, with_limit, expiry_for_duration, current_draft, draft_of_mode, draft_of_hvac_mode,
  next_draft, BookingBoundary, boundary_of_booking, boundary_of_id, boundary_of_state,
  has_reservation, row_of_draft, limited_row, build_override_row,
}
use clock_ha_orchestrator.Persistence.Rows.{BookingRow, RoomStateRow, OverrideRow}
use clock_ha_orchestrator.Persistence.Session.Queries.{newest-Present, select-All}
use clock_ha_orchestrator.Persistence.Session.{Database, find}

-- The limits of an override: none, a checkout that is still to come, or one of the three durations.
-- The indices say whether the mode is automatic and whether the override lasts until the checkout,
-- and give the booking, the checkout and the expiry.
pub data Limits (start : ℕ) : Bool → Bool → Option ℕ → Option ℕ → Option ℕ → Type 0 where
  cleared : Limits start true false none none none
  until_checkout :
      (booking_id checkout : ℕ)
      → start < checkout
      → Limits start false true (some booking_id) (some checkout) none
  timed :
      (d : OverrideDuration) (m : ℕ)
      → literal_minutes d ≡ some m
      → Limits start false false none none (some (start + m * minute))

abbrev pub HasLimits : OverrideRow → Type 0
HasLimits r =
    Limits r.starts_at (is_automatic r.control_mode) r.until_checkout r.booking_id r.checkout_at
      r.expires_at

-- The row switches the HVAC on exactly if it names a target, and has the limits of its mode.
abbrev pub IsCommandRow : OverrideRow → Type 0
IsCommandRow r = Coherent r.hvac_mode r.target_temperature_c × HasLimits r

abbrev pub DraftCoherent : OverrideDraft → Type 0
DraftCoherent d = Coherent d.hvac_mode d.target_temperature_c

clamp-Coherent :
    (policy : AutomationPolicy) (m : ManualHvacMode) (t : Option Float)
    → Coherent m t
    → Coherent m (clamp_target policy t)
clamp-Coherent policy m t h = ground arith

draft_of_latest-Coherent :
    (latest : Option OverrideRow) (now : ℕ)
    → Present IsCommandRow latest
    → DraftCoherent (draft_of_latest latest now)
unfolding draft_of_latest draft_of_row
draft_of_latest-Coherent none now h = tt
draft_of_latest-Coherent (some row) now h =
    if-holds DraftCoherent (is_automatic row.control_mode) default_override_draft
      (if override_row_is_active row now then draft_of_row row else default_override_draft)
      (λ _. tt)
      (λ _.
        if-holds DraftCoherent (override_row_is_active row now) (draft_of_row row)
          default_override_draft (λ _. h.0) (λ _. tt))

mode_or-Coherent :
    (m default : ManualHvacMode) (t : Float)
    → is_off default ≡ false
    → Coherent (mode_or m default) (some t)
mode_or-Coherent m default t h = ground arith

draft_of_mode-Coherent :
    (policy : AutomationPolicy) (base : OverrideDraft) (m : ControlMode)
    → DraftCoherent (draft_of_mode policy base m)
draft_of_mode-Coherent policy base ControlMode.automatic = tt
draft_of_mode-Coherent policy base ControlMode.off = tt
draft_of_mode-Coherent policy base ControlMode.manual =
    mode_or-Coherent base.hvac_mode ManualHvacMode.auto _ refl

draft_of_hvac_mode-Coherent :
    (policy : AutomationPolicy) (base : OverrideDraft) (m : ManualHvacMode)
    → DraftCoherent (draft_of_hvac_mode policy base m)
draft_of_hvac_mode-Coherent policy base ManualHvacMode.off = tt
draft_of_hvac_mode-Coherent policy base ManualHvacMode.heat = tt
draft_of_hvac_mode-Coherent policy base ManualHvacMode.cool = tt
draft_of_hvac_mode-Coherent policy base ManualHvacMode.auto = tt

next_draft-Coherent :
    (parse : List ℕ → Option Float) (policy : AutomationPolicy) (field : ControlField)
    (text : List ℕ) (base : OverrideDraft)
    → DraftCoherent base
    → Returns DraftCoherent (next_draft parse policy field text base)
unfolding next_draft
next_draft-Coherent parse policy ControlField.return_to_automatic text base h = tt
next_draft-Coherent parse policy ControlField.mode text base h =
    Returns-bind DraftCoherent (control_mode_of text) _
      (λ m _. draft_of_mode-Coherent policy base m)
next_draft-Coherent parse policy ControlField.hvac_mode text base h =
    Returns-bind DraftCoherent (manual_hvac_mode_of text) _
      (λ m _. draft_of_hvac_mode-Coherent policy base m)
next_draft-Coherent parse policy ControlField.temperature text base h =
    Returns-bind DraftCoherent (temperature_of parse text) _
      (λ t _. mode_or-Coherent base.hvac_mode ManualHvacMode.heat _ refl)
next_draft-Coherent parse policy ControlField.duration text base h =
    if-holds (Returns DraftCoherent) (is_automatic base.control_mode) _ _ (λ _. tt)
      (λ _. Returns-bind DraftCoherent (duration_of text policy) _ (λ d _. h))
next_draft-Coherent parse policy ControlField.water_heater text base h =
    Returns-bind DraftCoherent (boolean_payload text) _ (λ _ _. h)

module _ (policy : AutomationPolicy) (room_id now command_id : ℕ) (draft : OverrideDraft)
    (coherent : DraftCoherent draft) where
  abbrev Limited : (ℕ → OverrideRow) → Type 0
  Limited make = (id : ℕ) → IsCommandRow (make id)

  target-Coherent : Coherent draft.hvac_mode (clamp_target policy draft.target_temperature_c)
  target-Coherent = clamp-Coherent policy draft.hvac_mode draft.target_temperature_c coherent

  timed-IsCommandRow :
      (d : OverrideDuration) (m : ℕ)
      → literal_minutes d ≡ some m
      → is_automatic draft.control_mode ≡ false
      → Limited (
          row_of_draft policy room_id now command_id draft none none
            (some (now + m * minute))
            false)
  timed-IsCommandRow d m l e id = (
    target-Coherent,
    subst (λ b. Limits now b false none none (some (now + m * minute))) (sym e) (timed d m l),
  )

  with_limit-IsCommandRow :
      (d : OverrideDuration) (boundary : Option BookingBoundary)
      → is_automatic draft.control_mode ≡ false
      → Present (λ b. now < b.checkout_at) boundary
      → Returns Limited
          (with_limit policy room_id now command_id draft (expiry_for_duration d now) boundary)
  unfolding expiry_for_duration
  with_limit-IsCommandRow OverrideDuration.minutes_60 boundary e h =
      timed-IsCommandRow OverrideDuration.minutes_60 60 refl e
  with_limit-IsCommandRow OverrideDuration.minutes_240 boundary e h =
      timed-IsCommandRow OverrideDuration.minutes_240 240 refl e
  with_limit-IsCommandRow OverrideDuration.minutes_720 boundary e h =
      timed-IsCommandRow OverrideDuration.minutes_720 720 refl e
  with_limit-IsCommandRow OverrideDuration.until_checkout none e h = tt
  with_limit-IsCommandRow OverrideDuration.until_checkout (some b) e h = λ id. (
    target-Coherent,
    subst (λ a. Limits now a true (some b.booking_id) (some b.checkout_at) none) (sym e)
        (until_checkout b.booking_id b.checkout_at h),
  )

  limited_row-IsCommandRow :
      (boundary : Option BookingBoundary)
      → Present (λ b. now < b.checkout_at) boundary
      → Returns Limited (limited_row policy room_id now command_id draft boundary)
  unfolding limited_row
  limited_row-IsCommandRow boundary h =
      if-holds (Returns Limited) (is_automatic draft.control_mode) _ _
        (λ e id. (target-Coherent, subst (λ b. Limits now b false none none none) (sym e) cleared))
        (λ e. with_limit-IsCommandRow draft.duration boundary e h)

boundary_of_booking-later :
    (policy : PropertyPolicy) (now : ℕ) (booking : Option BookingRow)
    → Present (λ b. now < b.checkout_at) (boundary_of_booking policy now booking)
boundary_of_booking-later policy now none = tt
boundary_of_booking-later policy now (some b) =
    if-holds (Present (λ b. now < b.checkout_at)) (ltb now _) _ none (ltb→lt now _) (λ _. tt)

boundary_of_id-later :
    (policy : PropertyPolicy) (now : ℕ) (bookings : List BookingRow) (phase : AutomationPhase)
    (id : Option ℕ)
    → Present (λ b. now < b.checkout_at) (boundary_of_id policy now bookings phase id)
boundary_of_id-later policy now bookings phase none = tt
boundary_of_id-later policy now bookings phase (some id) =
    if-holds (Present (λ b. now < b.checkout_at)) (has_reservation phase) _ none
      (λ _. boundary_of_booking-later policy now (find (λ b. b.id == id) bookings)) (λ _. tt)

boundary_of_state-later :
    (policy : PropertyPolicy) (now : ℕ) (bookings : List BookingRow) (state : Option RoomStateRow)
    → Present (λ b. now < b.checkout_at) (boundary_of_state policy now bookings state)
boundary_of_state-later policy now bookings none = tt
boundary_of_state-later policy now bookings (some s) =
    boundary_of_id-later policy now bookings s.automation_phase s.booking_id

current_draft-Coherent :
    (room_id now : ℕ) (db : Database)
    → All IsCommandRow db.overrides
    → DraftCoherent (current_draft room_id now db)
unfolding current_draft
current_draft-Coherent room_id now db h =
    draft_of_latest-Coherent (latest_override_row room_id db) now (
      newest-Present IsCommandRow (λ r. r.starts_at) (λ r. r.id) _
        (select-All IsCommandRow (λ r. r.room_id == room_id) db.overrides h))

pub build_override_row-IsCommandRow :
    (parse : List ℕ → Option Float) (policy : HotelPolicy) (room_id : ℕ) (field : String)
    (payload : Option (List ℕ)) (now command_id : ℕ) (db : Database)
    → All IsCommandRow db.overrides
    → Returns
        (λ make. (id : ℕ) → IsCommandRow (make id))
        (build_override_row parse policy room_id field payload now command_id db)
unfolding build_override_row
build_override_row-IsCommandRow parse policy room_id field payload now command_id db h =
    Returns-bind _ (payload_text payload) _ (λ text _. Returns-bind _ (field_of field) _ (λ known _.
      Returns-bind _ (next_draft parse policy.automation known text (current_draft room_id now db))
        _
        (λ draft e.
          limited_row-IsCommandRow policy.automation room_id now command_id draft
            (Returns-ok DraftCoherent _ draft e (
              next_draft-Coherent parse policy.automation known text _
                (current_draft-Coherent room_id now db h)))
            _
            (boundary_of_state-later policy.property now db.bookings
              (latest_room_state room_id db)))))

-- A row carries its room, the time and the id of its command.
abbrev pub Stamped : ℕ → ℕ → ℕ → OverrideRow → Type 0
Stamped room_id now command_id row =
    (row.room_id ≡ room_id) × (row.starts_at ≡ now) × (row.command_id ≡ command_id)

with_limit-Stamped :
    (policy : AutomationPolicy) (room_id now command_id : ℕ) (draft : OverrideDraft)
    (limit : Option ℕ × Bool) (boundary : Option BookingBoundary)
    → Returns
        (λ make. (id : ℕ) → Stamped room_id now command_id (make id))
        (with_limit policy room_id now command_id draft limit boundary)
with_limit-Stamped policy room_id now command_id draft (e, true) none = tt
with_limit-Stamped policy room_id now command_id draft (e, true) (some b) = λ id. (refl, refl, refl)
with_limit-Stamped policy room_id now command_id draft (e, false) boundary =
    λ id. (refl, refl, refl)

pub build_override_row-Stamped :
    (parse : List ℕ → Option Float) (policy : HotelPolicy) (room_id : ℕ) (field : String)
    (payload : Option (List ℕ)) (now command_id : ℕ) (db : Database)
    → Returns
        (λ make. (id : ℕ) → Stamped room_id now command_id (make id))
        (build_override_row parse policy room_id field payload now command_id db)
unfolding build_override_row limited_row
build_override_row-Stamped parse policy room_id field payload now command_id db =
    Returns-bind _ (payload_text payload) _ (λ text _. Returns-bind _ (field_of field) _ (λ known _.
      Returns-bind _ (next_draft parse policy.automation known text (current_draft room_id now db))
        _
        (λ draft _.
          if-holds (Returns (λ make. (id : ℕ) → Stamped room_id now command_id (make id)))
            (is_automatic draft.control_mode) _ _ (λ _ id. (refl, refl, refl))
            (λ _.
              with_limit-Stamped policy.automation room_id now command_id draft
                (expiry_for_duration draft.duration now) _))))
