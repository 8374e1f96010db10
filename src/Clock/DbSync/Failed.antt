-- ===== src/Clock/DbSync/Failed.antt =====
-- A synchronisation whose poll failed.
use clock_ha_orchestrator.Prelude.{
  ℕ, ◌≡◌, refl, ap, ◌∙◌, true, false, Option, none, some, List, [], ◌∷◌, String, if-holds, arith,
}
use clock_ha_orchestrator.Prelude.Results.{Result, ok, Succeeds, Succeeds-ok}
use clock_ha_orchestrator.Domain.Models.{Room, HotelPolicy, RoomRegistry}
use clock_ha_orchestrator.Policy.Control.Service.{
  property_or_new, room_or_new, ensure_property, ensure_room,
}
use clock_ha_orchestrator.Policy.Control.Service.Laws.{Quiet}
use clock_ha_orchestrator.Persistence.Rows.{PropertyRow, RoomRow, SyncRunRow, Payload}
use clock_ha_orchestrator.Persistence.Session.{Database}
use clock_ha_orchestrator.Clock.Registry.{ensure_rooms, ensure_registry}
use clock_ha_orchestrator.Clock.Rooms.{SemanticState}
use clock_ha_orchestrator.Clock.DbSync.{
  SyncError, SyncRunResult, PersistedSyncResult, sync_run, apply_sync_result,
}
use clock_ha_orchestrator.Clock.DbSync.Laws.{registry-Quiet}

-- The runs and the cursors are as they were.
abbrev SameLog : Database → Database → Type 0
SameLog a b = (a.sync_runs ≡ b.sync_runs) × (a.cursors ≡ b.cursors)

module _ (uuid : ℕ → ℕ) where
  property-SameLog :
      (key : String) (found : Option PropertyRow) (db : Database)
      → SameLog (property_or_new uuid key found db).0 db
  property-SameLog key none db = (refl, refl)
  property-SameLog key (some row) db = (refl, refl)

  room-SameLog :
      (id : ℕ) (room : Room) (found : Option RoomRow) (db : Database)
      → SameLog (room_or_new uuid id room found db).0 db
  room-SameLog id room none db = (refl, refl)
  room-SameLog id room (some row) db = (refl, refl)

  rooms-SameLog :
      (id : ℕ) (rooms : List Room) (db : Database) → SameLog (ensure_rooms uuid id rooms db).0 db
  unfolding ensure_rooms ensure_room
  rooms-SameLog id [] db = (refl, refl)
  rooms-SameLog id (room ∷ rooms) db =
      let rest = rooms-SameLog id rooms (ensure_room uuid id room db).0 in
      let first = room-SameLog id room _ db in (rest.0 ∙ first.0, rest.1 ∙ first.1)

  registry-SameLog :
      (registry : RoomRegistry) (db : Database) → SameLog (ensure_registry uuid registry db).0 db
  unfolding ensure_registry ensure_property
  registry-SameLog registry db =
      let property = ensure_property uuid registry.property_key db in
      let rest = rooms-SameLog property.1 registry.rooms property.0 in
      let first = property-SameLog registry.property_key _ db in
      (rest.0 ∙ first.0, rest.1 ∙ first.1)

-- The row of a run that failed.
abbrev pub FailedRun : SyncRunResult → ℕ → SyncRunRow → Type 0
FailedRun result correlation_id row =
    (row.success ≡ false)
    × (row.started_at ≡ result.started_at)
    × (row.finished_at ≡ result.finished_at)
    × (row.error_classification ≡ result.error)
    × (row.processed_bookings ≡ 0)
    × (row.correlation_id ≡ correlation_id)

-- The table of the runs has one row more, the one of the failed run, and the tables of the rooms'
-- history and the cursors are as they were.
abbrev pub Recorded : SyncRunResult → ℕ → Database → Database × PersistedSyncResult → Type 0
Recorded result correlation_id db r =
    (r.1.success ≡ false)
    × Quiet r.0 db
    × (r.0.cursors ≡ db.cursors)
    × (row : SyncRunRow) × (r.0.sync_runs ≡ row ∷ db.sync_runs)
    × (r.1.sync_run_id ≡ row.id)
    × FailedRun result correlation_id row

-- A run that failed adds one row to the runs, with its times and its error and without processed
-- bookings, and changes no cursor, override, event, room state, booking or audit event.
pub apply_sync_result-failed :
    (uuid : ℕ → ℕ) (serialize : Payload → String) (hash : SemanticState → String) (prefix : String)
    (registry : RoomRegistry) (policy : HotelPolicy) (cursor_source : String)
    (result : SyncRunResult) (correlation_id : ℕ) (db : Database)
    → result.success ≡ false
    → (r : Database × PersistedSyncResult) × (apply_sync_result uuid serialize hash prefix registry
          policy cursor_source result correlation_id db
        ≡ ok r)
      × Recorded result correlation_id db r
unfolding apply_sync_result
apply_sync_result-failed uuid serialize hash prefix registry policy cursor_source result
      correlation_id db h =
    Succeeds-ok {A = Database × PersistedSyncResult} (Recorded result correlation_id db)
      (apply_sync_result uuid serialize hash prefix registry policy cursor_source result
        correlation_id db)
      (if-holds {A = Result SyncError (Database × PersistedSyncResult)}
        (Succeeds (Recorded result correlation_id db)) result.success _ _
        (λ e. absurd (true≢false e))
        (λ e. (
          refl,
          registry-Quiet uuid registry db,
          (registry-SameLog uuid registry db).1,
          sync_run (ensure_registry uuid registry db).1.property_id result correlation_id
              (uuid (ensure_registry uuid registry db).0.drawn),
          ap
              (λ l.
                sync_run (ensure_registry uuid registry db).1.property_id result correlation_id
                  (uuid (ensure_registry uuid registry db).0.drawn)
                ∷ l)
              (registry-SameLog uuid registry db).0,
          refl,
          (e, refl, refl, refl, refl, refl),
        )))
  where
    true≢false : result.success ≡ true → ⊥
    true≢false e = ground arith
