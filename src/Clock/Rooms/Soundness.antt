-- ===== src/Clock/Rooms/Soundness.antt =====
-- What the rows satisfy that the commands, the scheduler and the synchronisation write, and what the
-- parts of a recalculation make of such rows.
use clock_ha_orchestrator.Prelude.{
  ℕ, ◌<◌, ◌≡◌, refl, sym, subst, ◌∙◌, Bool, true, false, not, ◌&&◌, Option, none, some, List, [],
  ◌∷◌, String, str_eq, ltb, ◌==◌, All, Present, if-holds, arith,
}
use clock_ha_orchestrator.Prelude.Results.{ok, ◌>>=◌, Succeeds, Succeeds-bind}
use clock_ha_orchestrator.Domain.Enums.{is_automatic, is_manual_override, is_unknown}
use clock_ha_orchestrator.Domain.Models.{
  HotelPolicy, ManualOverride, DesiredRoomIntent, RoomStateEvaluation, validate_dates,
}
use clock_ha_orchestrator.Domain.StateMachine.Windows.{IsTimed, Overnight}
use clock_ha_orchestrator.Policy.Engine.Totality.{IsCoherent}
use clock_ha_orchestrator.Policy.Control.Rows.{
  utc_option, override_of_row, override_row_is_active, manual_override_from_row,
}
use clock_ha_orchestrator.Policy.Control.Draft.Laws.{
  Limits, cleared, until_checkout, timed, IsCommandRow,
}
use clock_ha_orchestrator.Persistence.Rows.{BookingRow, AssignmentRow, OverrideRow, Payload}
use clock_ha_orchestrator.Persistence.Session.{Database, find}
use clock_ha_orchestrator.Clock.Registry.{RegistryEntry, RegistryRows, last_match}
use clock_ha_orchestrator.Clock.Rooms.{
  SemanticState, own_booking, override_of_own, override_of_latest,
}
use clock_ha_orchestrator.Clock.Rooms.Loading.{normalized_from_row, normalized_rows}
use clock_ha_orchestrator.Clock.Rooms.Step.{
  end_inactive_override, publish_control, publish_intent, audit_attention,
}

-- A booking of at least one night, which needs attention if its status is unknown.
abbrev pub IsBookingRow : BookingRow → Type 0
IsBookingRow r =
    (r.arrival_date < r.departure_date)
    × ((is_unknown r.booking_status && not r.needs_attention) ≡ false)

-- The overrides have a target exactly if they switch the HVAC on, and the limits of their mode; the
-- bookings stay a night and have no unnoticed unknown status.
abbrev pub Sound : Database → Type 0
Sound db = All IsCommandRow db.overrides × All IsBookingRow db.bookings

-- The keys of the registry's rooms are not empty.
abbrev pub Keyed : RegistryRows → Type 0
Keyed registry = All (λ e. str_eq e.room.key "" ≡ false) registry.entries

pub expires_lem :
    {start : ℕ} {auto until : Bool} {booking checkout expires : Option ℕ}
    → Limits start auto until booking checkout expires
    → until ≡ true
    → utc_option expires ≡ none
expires_lem cleared h = refl
expires_lem (until_checkout b c p) h = refl
expires_lem (timed d m e) h = ground arith

abbrev pub Fit : Option ManualOverride → Type 0
Fit o = IsTimed o × IsCoherent o

pub own-Fit :
    (row : OverrideRow) (own : Option (Option String))
    → IsCommandRow row
    → Fit (override_of_own row own)
unfolding override_of_own manual_override_from_row
own-Fit row none h = (tt, tt)
own-Fit row (some own) h =
    if-holds Fit (is_automatic row.control_mode) none (some (override_of_row row own))
      (λ _. (tt, tt)) (λ _. (expires_lem h.1, h.0))

pub latest-Fit :
    (latest : Option OverrideRow) (now : ℕ) (bookings : List BookingRow)
    → Present IsCommandRow latest
    → Fit (override_of_latest latest now bookings)
unfolding override_of_latest
latest-Fit none now bookings h = (tt, tt)
latest-Fit (some row) now bookings h =
    if-holds Fit (override_row_is_active row now) (override_of_own row (own_booking row bookings))
      none (λ _. own-Fit row (own_booking row bookings) h) (λ _. (tt, tt))

pub row-Succeeds :
    (key : String) (row : BookingRow) (a : Option AssignmentRow)
    → IsBookingRow row
    → Succeeds Overnight (normalized_from_row key row a)
unfolding normalized_from_row validate_dates
row-Succeeds key row a h = rw (in_order, h.1) (h.0)
  where
    in_order : ltb row.departure_date row.arrival_date ≡ false
    in_order = ground (arith, h.0)

module _ (key : String) (assignments : List AssignmentRow) where
  abbrev pub current : BookingRow → Option AssignmentRow
  current row = find (λ a. (a.booking_id == row.id) && a.is_current) assignments

  pub rows-Succeed :
      (rows : List BookingRow)
      → All IsBookingRow rows
      → Succeeds (All Overnight) (normalized_rows key assignments rows)
  unfolding normalized_rows
  rows-Succeed [] h = tt
  rows-Succeed (row ∷ rows) h =
      Succeeds-bind Overnight (All Overnight) (normalized_from_row key row (current row))
        (λ b. normalized_rows key assignments rows >>= λ rest. ok (b ∷ rest))
        (row-Succeeds key row (current row) h.0)
        (λ b o.
          Succeeds-bind (All Overnight) (All Overnight) (normalized_rows key assignments rows)
            (λ rest. ok (b ∷ rest)) (rows-Succeed rows h.1) (λ rest os. (o, os)))

pub last-Present :
    (P : RegistryEntry → Type 0) (p : RegistryEntry → Bool) (es : List RegistryEntry)
    → All P es
    → Present P (last_match p es)
last-Present P p [] h = tt
last-Present P p (e ∷ es) h = ground (arith, last-Present P p es)

-- The second has the overrides and the bookings of the first.
abbrev pub Keeps : Database → Database → Type 0
Keeps a b = (b.overrides ≡ a.overrides) × (b.bookings ≡ a.bookings)

pub Keeps-trans : (a b c : Database) → Keeps a b → Keeps b c → Keeps a c
Keeps-trans a b c p q = (q.0 ∙ p.0, q.1 ∙ p.1)

pub Keeps-Sound : (a b : Database) → Keeps a b → Sound a → Sound b
Keeps-Sound a b k s =
    (subst (All IsCommandRow) (sym k.0) s.0, subst (All IsBookingRow) (sym k.1) s.1)

module _ (uuid : ℕ → ℕ) (serialize : Payload → String) (hash : SemanticState → String)
    (prefix : String) (policy : HotelPolicy) (now correlation_id : ℕ) where
  pub end-Sound :
      (property_id room_id : ℕ) (latest : Option OverrideRow) (state : RoomStateEvaluation)
      (db : Database)
      → Sound db
      → Sound
          (end_inactive_override uuid serialize hash prefix policy now correlation_id property_id
            room_id latest state db).0
  end-Sound property_id room_id none state db h = h
  end-Sound property_id room_id (some row) state db h =
      if-holds {A = Database × Bool} (λ r. Sound r.0) (is_automatic row.control_mode) _ _ (λ _. h)
        (λ _.
          if-holds {A = Database × Bool} (λ r. Sound r.0) (is_manual_override state.phase) _ _
            (λ _. h) (λ _. (((tt, cleared), h.0), h.1)))

  pub control-Keeps :
      (key : String) (ended : Bool) (db : Database)
      → Keeps db (publish_control uuid serialize hash prefix policy now correlation_id key ended db)
  unfolding publish_control
  control-Keeps key true db = (refl, refl)
  control-Keeps key false db = (refl, refl)

  pub intent-Keeps :
      (key : String) (intent : Option DesiredRoomIntent) (db : Database)
      → Keeps db (publish_intent uuid serialize hash prefix policy now correlation_id key intent db)
  intent-Keeps key none db = (refl, refl)
  intent-Keeps key (some i) db = (refl, refl)

  pub attention-Keeps :
      (flag : Bool) (property_id room_id : ℕ) (booking : Option ℕ) (db : Database)
      → Keeps db (
          audit_attention uuid serialize hash prefix policy now correlation_id flag property_id
            room_id booking db)
  attention-Keeps true property_id room_id booking db = (refl, refl)
  attention-Keeps false property_id room_id booking db = (refl, refl)
