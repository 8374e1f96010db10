-- ===== src/Clock/DbSync.antt =====
-- app/clock/db_sync.py: `ClockDbSyncService`, whose three operations are a transaction each. An error
-- leaves the transaction, so that the caller keeps the database that it had.
pub mod Laws
pub mod Runs
pub mod Failed
pub mod Assignments
pub mod Affected
pub mod Cursor
use clock_ha_orchestrator.Prelude.{
  ℕ, ◌+◌, Bool, true, false, not, ◌&&◌, Option, none, some, List, [], ◌∷◌, map, String, str_eq, ltb,
  ◌==◌, if◌then◌else◌, any, select,
}
use clock_ha_orchestrator.Prelude.Results.{Result, ok, err, ◌>>=◌, ◌>>◌, raise_if}
use clock_ha_orchestrator.Domain.Models.{
  ValueError, NormalizedBooking, RoomRegistry, HotelPolicy, has_physical_room,
}
use clock_ha_orchestrator.Policy.Control.Text.{codes}
use clock_ha_orchestrator.Policy.Control.Service.{is_property}
use clock_ha_orchestrator.Persistence.Rows.{PropertyRow, CursorRow, SyncRunRow, Payload}
use clock_ha_orchestrator.Persistence.Session.{Database, find, update_where}
use clock_ha_orchestrator.Clock.Registry.{RegistryRows, ensure_registry}
use clock_ha_orchestrator.Clock.Bookings.{
  add_id, add_known, upsert_booking, AssignmentChange, sync_assignment, audit_unassigned_if_needed,
}
use clock_ha_orchestrator.Clock.Rooms.{SemanticState, Recalculation}
use clock_ha_orchestrator.Clock.Rooms.Step.{recalculate_rooms}

pub data SyncError : Type 0 where
  property_mismatch : SyncError
  invalid : ValueError → SyncError

abbrev pub as_sync_error {ℓ} : {A : Type ℓ} → Result ValueError A → Result SyncError A
as_sync_error (ok a) = ok a
as_sync_error (err e) = err (invalid e)

pub record SyncCursorState : Type 0 where
  pub last_success_at : Option ℕ
  pub cursor_value : Option String

pub record SyncRunResult : Type 0 where
  pub success : Bool
  pub bookings : List NormalizedBooking
  pub started_at : ℕ
  pub finished_at : ℕ
  pub next_cursor : SyncCursorState
  pub error : Option String

pub record PersistedSyncResult : Type 0 where
  pub sync_run_id : ℕ
  pub success : Bool
  pub processed_bookings : ℕ
  pub affected_room_keys : List String
  pub room_states_created : ℕ
  pub outbox_events_created : ℕ
  pub audit_events_created : ℕ

-- `sorted(keys)`, by code points.
abbrev pub leb_codes : List ℕ → List ℕ → Bool
leb_codes [] bs = true
leb_codes (_ ∷ _) [] = false
leb_codes (a ∷ as') (b ∷ bs) = if a == b then leb_codes as' bs else ltb a b

abbrev pub insert_key : String → List String → List String
insert_key k [] = k ∷ []
insert_key k (l ∷ ls) = if leb_codes (codes k) (codes l) then k ∷ l ∷ ls else l ∷ insert_key k ls

abbrev pub sort_keys : List String → List String
sort_keys [] = []
sort_keys (k ∷ ks) = insert_key k (sort_keys ks)

-- What the loop over the bookings carries.
pub record Progress : Type 0 where
  pub affected_room_ids : List ℕ
  pub audit_events_created : ℕ
  pub processed_bookings : ℕ

abbrev pub add_ids : List ℕ → List ℕ → List ℕ
add_ids [] xs = xs
add_ids (y ∷ ys) xs = add_id y (add_ids ys xs)

abbrev pub sync_run : ℕ → SyncRunResult → ℕ → ℕ → SyncRunRow
sync_run property_id result correlation_id id = record {
  id = id;
  property_id = property_id;
  started_at = result.started_at;
  finished_at = result.finished_at;
  success = result.success;
  processed_bookings = 0;
  error_classification = result.error;
  correlation_id = correlation_id;
}

abbrev pub is_cursor : ℕ → String → CursorRow → Bool
is_cursor property_id source row = (row.property_id == property_id) && str_eq row.source source

abbrev pub cursor_row : ℕ → String → SyncCursorState → ℕ → CursorRow
cursor_row property_id source next now = record {
  property_id = property_id;
  source = source;
  cursor_value = next.cursor_value;
  last_success_at = next.last_success_at;
  updated_at = now;
}

-- A new row for the property and the source, or their row with the next cursor.
abbrev pub cursor_or_new : ℕ → String → SyncCursorState → ℕ → Option CursorRow → Database → Database
cursor_or_new property_id source next now none db = record db {
  cursors = cursor_row property_id source next now ∷ db.cursors;
}
cursor_or_new property_id source next now (some row) db = record db {
  cursors =
      update_where (is_cursor property_id source) (λ r. cursor_row r.property_id r.source next now)
        db.cursors;
}

unfoldable pub advance_cursor : ℕ → String → SyncCursorState → ℕ → Database → Database
advance_cursor property_id source next now db =
    cursor_or_new property_id source next now (find (is_cursor property_id source) db.cursors) db

abbrev pub no_cursor : SyncCursorState
no_cursor = record { last_success_at = none; cursor_value = none }

abbrev pub state_of_cursor : Option CursorRow → SyncCursorState
state_of_cursor none = no_cursor
state_of_cursor (some row) = record {
  last_success_at = row.last_success_at;
  cursor_value = row.cursor_value;
}

abbrev pub cursor_of_property : String → List CursorRow → Option PropertyRow → SyncCursorState
cursor_of_property source cursors none = no_cursor
cursor_of_property source cursors (some p) = state_of_cursor (find (is_cursor p.id source) cursors)

unfoldable pub load_cursor_state : String → String → Database → SyncCursorState
load_cursor_state property_key source db =
    cursor_of_property source db.cursors (find (is_property property_key) db.properties)

module _ (uuid : ℕ → ℕ) (serialize : Payload → String) (hash : SemanticState → String)
    (prefix : String) (registry : RoomRegistry) (policy : HotelPolicy)
    (cursor_source : String) where
  -- The loop's body, after `_validate_property`.
  abbrev pub process_booking :
      RegistryRows → ℕ → ℕ → NormalizedBooking → Database × Progress → Database × Progress
  unfolding upsert_booking sync_assignment audit_unassigned_if_needed
  process_booking rows now correlation_id b (db, before) =
      let row = upsert_booking uuid rows.property_id b db in
      let change = sync_assignment uuid rows.property_id row.1 now correlation_id rows b row.0 in
      let affected = add_ids change.1.affected_room_ids before.affected_room_ids in
      let unassigned =
        if has_physical_room b
        then (change.0, 0)
        else audit_unassigned_if_needed uuid rows.property_id row.1 now correlation_id policy b
            change.0 in
      (
        unassigned.0,
        record {
          affected_room_ids =
              if row.2 then add_known change.1.current_room_id affected else affected;
          audit_events_created =
              before.audit_events_created + change.1.audit_events_created + unassigned.1;
          processed_bookings = before.processed_bookings + 1;
        },
      )

  unfoldable pub process_bookings :
      RegistryRows
      → ℕ
      → ℕ
      → List NormalizedBooking
      → Database × Progress
      → Result SyncError (Database × Progress)
  unfolding process_booking
  process_bookings rows now correlation_id [] progress = ok progress
  process_bookings rows now correlation_id (b ∷ bs) progress = do
    raise_if (not (str_eq b.property_id registry.property_key)) property_mismatch
    process_bookings rows now correlation_id bs (process_booking rows now correlation_id b progress)

  abbrev pub persisted : ℕ → ℕ → ℕ → Recalculation → PersistedSyncResult
  persisted sync_run_id processed audits counts = record {
    sync_run_id = sync_run_id;
    success = true;
    processed_bookings = processed;
    affected_room_keys = sort_keys counts.affected_room_keys;
    room_states_created = counts.room_states_created;
    outbox_events_created = counts.outbox_events_created;
    audit_events_created = audits + counts.audit_events_created;
  }

  -- The part of a successful run that follows its row.
  abbrev pub apply_success :
      RegistryRows
      → ℕ
      → SyncRunResult
      → ℕ
      → Database
      → Result SyncError (Database × PersistedSyncResult)
  unfolding process_bookings recalculate_rooms advance_cursor
  apply_success rows run_id result correlation_id db = do
    let now = result.finished_at
    processed ←
        process_bookings rows now correlation_id result.bookings
          (db, record { affected_room_ids = []; audit_events_created = 0; processed_bookings = 0 })
    rooms ← as_sync_error (
        recalculate_rooms uuid serialize hash prefix policy now correlation_id rows
          processed.1.affected_room_ids processed.0)
    let advanced = advance_cursor rows.property_id cursor_source result.next_cursor now rooms.0
    ok (
      record advanced {
        sync_runs =
            update_where (λ r. r.id == run_id)
              (λ r. record r { processed_bookings = processed.1.processed_bookings })
              advanced.sync_runs;
      },
      persisted run_id processed.1.processed_bookings processed.1.audit_events_created rooms.1,
    )

  unfoldable pub apply_sync_result :
      SyncRunResult → ℕ → Database → Result SyncError (Database × PersistedSyncResult)
  unfolding ensure_registry apply_success
  apply_sync_result result correlation_id db =
      let rows = ensure_registry uuid registry db in
      let run_id = uuid rows.0.drawn in
      let started = record rows.0 {
        sync_runs = sync_run rows.1.property_id result correlation_id run_id ∷ rows.0.sync_runs;
        drawn = rows.0.drawn + 1;
      } in
      if result.success
      then apply_success rows.1 run_id result correlation_id started
      else ok (
        started,
        record {
          sync_run_id = run_id;
          success = false;
          processed_bookings = 0;
          affected_room_keys = [];
          room_states_created = 0;
          outbox_events_created = 0;
          audit_events_created = 0;
        },
      )

  -- The evaluation of the rooms with the given ids; the id of its result is a fresh one.
  abbrev pub evaluate_ids :
      Database × RegistryRows → List ℕ → ℕ → ℕ → Result SyncError (Database × PersistedSyncResult)
  unfolding recalculate_rooms
  evaluate_ids rows ids now correlation_id = do
    rooms ←
        as_sync_error
          (recalculate_rooms uuid serialize hash prefix policy now correlation_id rows.1 ids rows.0)
    ok (record rooms.0 { drawn = rooms.0.drawn + 1 }, persisted (uuid rooms.0.drawn) 0 0 rooms.1)

  unfoldable pub evaluate_all_rooms :
      ℕ → ℕ → Database → Result SyncError (Database × PersistedSyncResult)
  unfolding ensure_registry evaluate_ids
  evaluate_all_rooms now correlation_id db =
      let rows = ensure_registry uuid registry db in
      evaluate_ids rows (add_ids (map (λ e. e.row_id) rows.1.entries) []) now correlation_id

  unfoldable pub evaluate_room_keys :
      List String → ℕ → ℕ → Database → Result SyncError (Database × PersistedSyncResult)
  unfolding ensure_registry evaluate_ids
  evaluate_room_keys room_keys now correlation_id db =
      let rows = ensure_registry uuid registry db in
      let wanted = select (λ e. any (str_eq e.room.key) room_keys) rows.1.entries in
      evaluate_ids rows (add_ids (map (λ e. e.row_id) wanted) []) now correlation_id
