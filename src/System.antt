-- ===== src/System.antt =====
-- app/system/state.py: the summary of the system that the runtime publishes. Instants are in
-- microseconds; the texts of the version and of the schema are left out.
pub mod Clear
use clock_ha_orchestrator.Prelude.{
  ℕ, zero, suc, ◌-◌, ◌/◌, Bool, true, false, not, ◌&&◌, ◌||◌, Option, none, some, List, String,
  str_eq, leb, ◌==◌, if◌then◌else◌, any, length, select, is_some,
}
use clock_ha_orchestrator.Prelude.Int.{ℤ, pos, negsuc}
use clock_ha_orchestrator.Domain.Enums.{
  BookingStatus, AutomationPhase, is_expected, is_checked_in, is_manual_override,
}
use clock_ha_orchestrator.Domain.Time.{ZoneInfo, utc_time, to_hotel, date_of}
use clock_ha_orchestrator.Outbox.Store.{Status}
use clock_ha_orchestrator.Persistence.Rows.{
  PropertyRow, BookingRow, AssignmentRow, RoomStateRow, SyncRunRow,
}
use clock_ha_orchestrator.Persistence.Session.{Database, find, later, newest}

pub data SystemStatus : Type 0 where
  error starting degraded attention online : SystemStatus

pub record SystemState : Type 0 where
  pub status : SystemStatus
  pub last_attempt_at : Option ℕ
  pub last_success_at : Option ℕ
  pub sync_duration_seconds : Option ℤ
  pub lag_seconds : Option ℤ
  pub mqtt_connected : Bool
  pub rooms_loaded : ℕ
  pub checked_in_rooms : ℕ
  pub expected_rooms : ℕ
  pub arrivals_today : ℕ
  pub departures_today : ℕ
  pub unassigned_arrivals : ℕ
  pub room_conflicts : ℕ
  pub active_manual_overrides : ℕ
  pub rooms_needing_attention : ℕ
  pub pending_outbox : ℕ
  pub dead_letter_outbox : ℕ
  pub updated_at : ℕ

-- The truth value of a number.
abbrev pub nonzero : ℕ → Bool
nonzero n = not (n == 0)

unfoldable pub system_status :
    (mqtt_connected mqtt_required last_success_seen : Bool)
    (room_conflicts rooms_needing_attention pending_outbox dead_letter_outbox : ℕ)
    → SystemStatus
system_status connected required seen conflicts attentions pending lost =
    if nonzero lost
    then error
    else if (required && not connected) || not seen
    then starting
    else if nonzero pending
    then degraded
    else if nonzero conflicts || nonzero attentions
    then attention
    else online

-- `phase == AutomationPhase.CONFLICT`
abbrev pub is_conflict : AutomationPhase → Bool
is_conflict AutomationPhase.conflict = true
is_conflict _ = false

abbrev pub in_conflict : RoomStateRow → Bool
in_conflict r = is_conflict r.automation_phase

abbrev pub count_where {ℓ} : {A : Type ℓ} → (A → Bool) → List A → ℕ
count_where p xs = length (select p xs)

-- The rows of rank 1: no row of the same room is later.
abbrev pub is_superseded : List RoomStateRow → RoomStateRow → Bool
is_superseded rows r =
    any (λ y. y.room_id == r.room_id && later (λ s. s.created_at) (λ s. s.id) y r) rows

unfoldable pub latest_room_states : Database → List RoomStateRow
latest_room_states db = select (λ r. not (is_superseded db.room_states r)) db.room_states

-- `status.in_(("pending", "retrying", "publishing"))`, and `status.in_(("dead_letter",))`
abbrev pub waits : Status → Bool
waits Status.pending = true
waits Status.retrying = true
waits Status.publishing = true
waits _ = false

abbrev pub dead : Status → Bool
dead Status.dead_letter = true
dead _ = false

abbrev pub count_outbox : Database → (Status → Bool) → ℕ
count_outbox db statuses = count_where (λ e. statuses e.status) db.outbox_events

abbrev pub negative : ℕ → ℤ
negative zero = pos 0
negative (suc n) = negsuc n

-- `int((a - b).total_seconds())`, which cuts towards zero.
abbrev pub seconds_between : ℕ → ℕ → ℤ
seconds_between a b = if leb b a then pos ((a - b) / 1000000) else negative ((b - a) / 1000000)

abbrev pub last_run : ℕ → Database → Option SyncRunRow
last_run property_id db =
    newest (λ r. r.started_at) (λ r. r.id) (select (λ r. r.property_id == property_id) db.sync_runs)

abbrev pub last_success : ℕ → Database → Option SyncRunRow
last_success property_id db =
    newest (λ r. r.finished_at) (λ r. r.id)
      (select (λ r. r.property_id == property_id && r.success) db.sync_runs)

abbrev pub sync_duration_seconds : Option SyncRunRow → Option ℤ
sync_duration_seconds none = none
sync_duration_seconds (some r) = some (seconds_between r.finished_at r.started_at)

abbrev pub count_bookings : Database → ℕ → (BookingStatus → Bool) → ℕ
count_bookings db property_id status =
    count_where (λ b. b.property_id == property_id && status b.booking_status) db.bookings

abbrev pub count_arrivals : Database → ℕ → ℕ → ℕ
count_arrivals db property_id today =
    count_where (λ b. b.property_id == property_id && b.arrival_date == today) db.bookings

abbrev pub count_departures : Database → ℕ → ℕ → ℕ
count_departures db property_id today =
    count_where (λ b. b.property_id == property_id && b.departure_date == today) db.bookings

abbrev pub current_assignment_exists : Database → BookingRow → Bool
current_assignment_exists db b = any (λ a. a.booking_id == b.id && a.is_current) db.assignments

abbrev pub count_unassigned_arrivals : Database → ℕ → ℕ
count_unassigned_arrivals db property_id =
    count_where
      (λ b.
        b.property_id == property_id
        && (is_expected b.booking_status && not (current_assignment_exists db b)))
      db.bookings

abbrev pub empty_state : (now : ℕ) (mqtt_connected : Bool) → SystemState
empty_state now connected = record {
  status = starting;
  last_attempt_at = none;
  last_success_at = none;
  sync_duration_seconds = none;
  lag_seconds = none;
  mqtt_connected = connected;
  rooms_loaded = 0;
  checked_in_rooms = 0;
  expected_rooms = 0;
  arrivals_today = 0;
  departures_today = 0;
  unassigned_arrivals = 0;
  room_conflicts = 0;
  active_manual_overrides = 0;
  rooms_needing_attention = 0;
  pending_outbox = 0;
  dead_letter_outbox = 0;
  updated_at = now;
}

abbrev pub state_of :
    ZoneInfo → Database → PropertyRow → (now : ℕ) → (connected required : Bool) → SystemState
state_of zone db p now connected required =
    let latest = latest_room_states db in
    let success = last_success p.id db in
    let conflicts = count_where in_conflict latest in
    let attentions = count_where (λ r. r.needs_attention) latest in
    let waiting = count_outbox db waits in
    let lost = count_outbox db dead in
    let today = date_of (to_hotel zone (utc_time now)) in
    record {
      status = system_status connected required (is_some success) conflicts attentions waiting lost;
      last_attempt_at = elim (last_run p.id db) [ none ↦ none | some r ↦ some r.started_at ];
      last_success_at = elim success [ none ↦ none | some r ↦ some r.finished_at ];
      sync_duration_seconds = sync_duration_seconds success;
      lag_seconds = elim success [
        | none ↦ none
        | some r ↦ some (seconds_between now r.finished_at)
      ];
      mqtt_connected = connected;
      rooms_loaded = count_where (λ r. r.property_id == p.id) db.rooms;
      checked_in_rooms = count_bookings db p.id is_checked_in;
      expected_rooms = count_bookings db p.id is_expected;
      arrivals_today = count_arrivals db p.id today;
      departures_today = count_departures db p.id today;
      unassigned_arrivals = count_unassigned_arrivals db p.id;
      room_conflicts = conflicts;
      active_manual_overrides = count_where (λ r. is_manual_override r.automation_phase) latest;
      rooms_needing_attention = attentions;
      pending_outbox = waiting;
      dead_letter_outbox = lost;
      updated_at = now;
    }

abbrev pub state_or_empty :
    ZoneInfo → Database → Option PropertyRow → (now : ℕ) (connected required : Bool) → SystemState
state_or_empty zone db none now connected required = empty_state now connected
state_or_empty zone db (some p) now connected required = state_of zone db p now connected required

-- The zone is the one that `ZoneInfo` finds for the property's row.
unfoldable pub build_system_state :
    ZoneInfo
    → Database
    → (property_key : String) (now : ℕ) (connected required : Bool) → SystemState
unfolding system_status latest_room_states
build_system_state zone db key now connected required =
    state_or_empty zone db (find (λ p. str_eq p.key key) db.properties) now connected required
