-- ===== src/Clock/DbSync/Runs.antt =====
-- The operations of the service: on sound rows they return, and leave the rows sound.
use clock_ha_orchestrator.Prelude.{
  any, select, ℕ, ◌+◌, ◌≡◌, false, List, [], map, String, str_eq, if-holds, All,
}
use clock_ha_orchestrator.Prelude.Results.{Result, ok, err, Succeeds, Succeeds-bind, Succeeds-ok}
use clock_ha_orchestrator.Domain.Models.{ValueError, HotelPolicy, RoomRegistry}
use clock_ha_orchestrator.Domain.StateMachine.Windows.{IsDaily}
use clock_ha_orchestrator.Persistence.Rows.{Payload}
use clock_ha_orchestrator.Persistence.Session.{Database}
use clock_ha_orchestrator.Clock.Registry.{RegistryRows, ensure_registry}
use clock_ha_orchestrator.Clock.Rooms.{SemanticState, Recalculation}
use clock_ha_orchestrator.Clock.Rooms.Step.{recalculate_rooms}
use clock_ha_orchestrator.Clock.Rooms.Soundness.{Sound, Keyed, Keeps-Sound}
use clock_ha_orchestrator.Clock.Rooms.Totality.{recalculate_rooms-Sound}
use clock_ha_orchestrator.Clock.DbSync.{
  SyncError, as_sync_error, SyncRunResult, PersistedSyncResult, Progress, persisted, advance_cursor,
  process_bookings, add_ids, apply_success, apply_sync_result, evaluate_ids, evaluate_all_rooms,
  evaluate_room_keys,
}
use clock_ha_orchestrator.Clock.DbSync.Laws.{
  IsSynced, Keeps-Quiet, registry-Quiet, registry-Keyed, cursor_or_new-Keeps,
  process_bookings-Sound,
}

as_sync_error-Succeeds :
    {A : Type 0} (P : A → Type 0) (m : Result ValueError A)
    → Succeeds P m
    → Succeeds P (as_sync_error m)
as_sync_error-Succeeds P (ok a) h = h
as_sync_error-Succeeds P (err e) h = h

module _ (uuid : ℕ → ℕ) (serialize : Payload → String) (hash : SemanticState → String)
    (prefix : String) (registry : RoomRegistry) (policy : HotelPolicy) (cursor_source : String)
    (daily : IsDaily policy) (keyed : All (λ r. str_eq r.key "" ≡ false) registry.rooms) where
  ids-Succeeds :
      (db : Database) (ids : List ℕ) (now correlation_id : ℕ)
      → Sound db
      → Succeeds
          (λ r. Sound r.0)
          (evaluate_ids uuid serialize hash prefix registry policy cursor_source
            (ensure_registry uuid registry db)
            ids
            now
            correlation_id)
  unfolding evaluate_ids
  ids-Succeeds db ids now correlation_id h =
      let rows = ensure_registry uuid registry db in
      let run =
        recalculate_rooms uuid serialize hash prefix policy now correlation_id rows.1 ids rows.0 in
      Succeeds-bind {A = Database × Recalculation} {B = Database × PersistedSyncResult}
        (λ r. Sound r.0) (λ r. Sound r.0) (as_sync_error run)
        (λ rooms. ok (
          record rooms.0 { drawn = rooms.0.drawn + 1 },
          persisted uuid serialize hash prefix registry policy cursor_source (uuid rooms.0.drawn) 0
              0 rooms.1,
        ))
        (as_sync_error-Succeeds {A = Database × Recalculation} (λ r. Sound r.0) run
          (recalculate_rooms-Sound uuid serialize hash prefix policy now correlation_id rows.1 ids
            rows.0 daily (registry-Keyed uuid registry db keyed)
            (Keeps-Sound db rows.0 (Keeps-Quiet db rows.0 (registry-Quiet uuid registry db)) h)))
        (λ r s. s)

  -- Evaluating all rooms returns, whatever the time, and leaves the rows sound.
  pub evaluate_all_rooms-Sound :
      (now correlation_id : ℕ) (db : Database)
      → Sound db
      → (r : Database × PersistedSyncResult) × (evaluate_all_rooms uuid serialize hash prefix
            registry policy cursor_source now correlation_id db
          ≡ ok r)
        × Sound r.0
  unfolding evaluate_all_rooms
  evaluate_all_rooms-Sound now correlation_id db h =
      Succeeds-ok {A = Database × PersistedSyncResult} (λ r. Sound r.0)
        (evaluate_all_rooms uuid serialize hash prefix registry policy cursor_source now
          correlation_id db)
        (ids-Succeeds db
          (add_ids (map (λ e. e.row_id) (ensure_registry uuid registry db).1.entries) []) now
          correlation_id h)

  -- Evaluating the rooms of some keys returns as well, and leaves the rows sound.
  pub evaluate_room_keys-Sound :
      (room_keys : List String) (now correlation_id : ℕ) (db : Database)
      → Sound db
      → (r : Database × PersistedSyncResult) × (evaluate_room_keys uuid serialize hash prefix
            registry policy cursor_source room_keys now correlation_id db
          ≡ ok r)
        × Sound r.0
  unfolding evaluate_room_keys
  evaluate_room_keys-Sound room_keys now correlation_id db h =
      Succeeds-ok {A = Database × PersistedSyncResult} (λ r. Sound r.0)
        (evaluate_room_keys uuid serialize hash prefix registry policy cursor_source room_keys now
          correlation_id db)
        (ids-Succeeds db
          (add_ids
            (map (λ e. e.row_id)
              (select (λ e. any (str_eq e.room.key) room_keys)
                (ensure_registry uuid registry db).1.entries))
            [])
          now correlation_id h)

  success-Sound :
      (rows : RegistryRows) (run_id : ℕ) (result : SyncRunResult) (correlation_id : ℕ)
      (db : Database)
      → Keyed rows
      → All (IsSynced registry.property_key) result.bookings
      → Sound db
      → Succeeds
          (λ r. Sound r.0)
          (apply_success uuid serialize hash prefix registry policy cursor_source rows run_id result
            correlation_id db)
  unfolding apply_success advance_cursor
  success-Sound rows run_id result correlation_id db k s h =
      let now = result.finished_at in
      let start : Progress = record {
        affected_room_ids = [];
        audit_events_created = 0;
        processed_bookings = 0;
      } in
      Succeeds-bind {A = Database × Progress} {B = Database × PersistedSyncResult} (λ p. Sound p.0)
        (λ r. Sound r.0)
        (process_bookings uuid serialize hash prefix registry policy cursor_source rows now
          correlation_id result.bookings (db, start))
        _
        (process_bookings-Sound uuid serialize hash prefix registry policy cursor_source rows now
          correlation_id result.bookings (db, start) s h)
        (λ p sp.
          Succeeds-bind {A = Database × Recalculation} {B = Database × PersistedSyncResult}
            (λ r. Sound r.0) (λ r. Sound r.0)
            (as_sync_error (
              recalculate_rooms uuid serialize hash prefix policy now correlation_id rows
                p.1.affected_room_ids p.0))
            _
            (as_sync_error-Succeeds {A = Database × Recalculation} (λ r. Sound r.0) _
              (recalculate_rooms-Sound uuid serialize hash prefix policy now correlation_id rows
                p.1.affected_room_ids p.0 daily k sp))
            (λ r sr.
              Keeps-Sound r.0
                (advance_cursor rows.property_id cursor_source result.next_cursor now r.0)
                (cursor_or_new-Keeps rows.property_id cursor_source result.next_cursor now _ r.0)
                sr))

  run-Succeeds :
      (result : SyncRunResult) (correlation_id : ℕ) (db : Database)
      → All (IsSynced registry.property_key) result.bookings
      → Sound db
      → Succeeds
          (λ r. Sound r.0)
          (apply_sync_result uuid serialize hash prefix registry policy cursor_source result
            correlation_id db)
  unfolding apply_sync_result
  run-Succeeds result correlation_id db s h =
      let rows = ensure_registry uuid registry db in
      let started =
        Keeps-Sound db rows.0 (Keeps-Quiet db rows.0 (registry-Quiet uuid registry db)) h in
      if-holds {A = Result SyncError (Database × PersistedSyncResult)} (Succeeds (λ r. Sound r.0))
        result.success _ _
        (λ _.
          success-Sound rows.1 (uuid rows.0.drawn) result correlation_id _
            (registry-Keyed uuid registry db keyed) s started)
        (λ _. started)

  -- Applying a run returns and leaves the rows sound, if its bookings are the property's, stay a night
  -- and have no unnoticed unknown status.
  pub apply_sync_result-Sound :
      (result : SyncRunResult) (correlation_id : ℕ) (db : Database)
      → All (IsSynced registry.property_key) result.bookings
      → Sound db
      → (r : Database × PersistedSyncResult) × (apply_sync_result uuid serialize hash prefix
            registry policy cursor_source result correlation_id db
          ≡ ok r)
        × Sound r.0
  unfolding apply_sync_result
  apply_sync_result-Sound result correlation_id db s h =
      Succeeds-ok {A = Database × PersistedSyncResult} (λ r. Sound r.0)
        (apply_sync_result uuid serialize hash prefix registry policy cursor_source result
          correlation_id db)
        (run-Succeeds result correlation_id db s h)
