-- ===== src/Tests/Sync.antt =====
-- A synchronisation of the hotel of Tests/Rooms.antt.
use clock_ha_orchestrator.Prelude.{
  List, All, ◌≡◌, ◌↔◌, str_eq, ◌⊎◌, refl, true, false, none, some, [], ◌∷◌, String, arith,
}
use clock_ha_orchestrator.Prelude.Results.{ok, Succeeds-ok}
use clock_ha_orchestrator.Domain.Enums.{BookingStatus}
use clock_ha_orchestrator.Domain.Models.{NormalizedBooking}
use clock_ha_orchestrator.Persistence.Rows.{AssignmentRow}
use clock_ha_orchestrator.Persistence.Session.{Database}
use clock_ha_orchestrator.Clock.Registry.{RegistryRows}
use clock_ha_orchestrator.Clock.Bookings.{current_assignment, sync_assignment}
use clock_ha_orchestrator.Clock.Rooms.{SemanticState, Recalculation, nothing}
use clock_ha_orchestrator.Clock.Rooms.Step.{recalculate_rooms}
use clock_ha_orchestrator.Clock.Rooms.Soundness.{Sound}
use clock_ha_orchestrator.Clock.Rooms.Totality.{recalculate_rooms-Sound}
use clock_ha_orchestrator.Clock.Rooms.Counts.{Counted, recalculate_rooms-Counted}
use clock_ha_orchestrator.Clock.Rooms.Versions.{settle, Unchanged, Advanced, settle_room-version}
use clock_ha_orchestrator.Clock.Rooms.Idempotence.{settle_room-again}
use clock_ha_orchestrator.Clock.DbSync.{
  SyncCursorState, SyncRunResult, PersistedSyncResult, apply_sync_result, advance_cursor,
  load_cursor_state,
}
use clock_ha_orchestrator.Clock.DbSync.Failed.{Recorded, apply_sync_result-failed}
use clock_ha_orchestrator.Clock.DbSync.Assignments.{HasOneRoom, sync_assignment-HasOneRoom}
use clock_ha_orchestrator.Clock.DbSync.Affected.{
  Covers, old_room, new_room, sync_assignment-affected,
}
use clock_ha_orchestrator.Clock.DbSync.Cursor.{load_cursor_state-advance_cursor}
use clock_ha_orchestrator.Policy.Control.Text.{codes}
use clock_ha_orchestrator.Runtime.{Turn, command, policy_tick, synchronised, run_turns}
use clock_ha_orchestrator.Runtime.Turns.{Unfailing, run_turns-Sound}
use clock_ha_orchestrator.Persistence.Session.{find}
use clock_ha_orchestrator.System.{SystemStatus, build_system_state}
use clock_ha_orchestrator.System.Clear.{IsClear, build_system_state-online}
use clock_ha_orchestrator.Tests.Rooms.{zone, hotel, room_101, stay}
use clock_ha_orchestrator.Tests.Intents.{hotel-IsDaily, in_use, served}
use clock_ha_orchestrator.Tests.Control.{
  willing, no_float, fresh, as_text, small_registry, heated, heated-IsCommandRow, one_override,
}

abbrev same_text : SemanticState → String
same_text _ = "hash"

one_override-Sound : Sound one_override
one_override-Sound = ((heated-IsCommandRow, tt), tt)

-- A run with one guest of the hotel.
abbrev guest : NormalizedBooking
guest = record (stay BookingStatus.checked_in 9 12) { property_id = "hotel" }

abbrev run : SyncRunResult
run = record {
  success = true;
  bookings = guest ∷ [];
  started_at = 2000;
  finished_at = 3000;
  next_cursor = record { last_success_at = some 3000; cursor_value = none };
  error = none;
}

abbrev failed_run : SyncRunResult
failed_run = record run { success = false; error = some "timeout" }

apply_sync_result-failed_example :
    (r : Database × PersistedSyncResult) × (apply_sync_result fresh as_text same_text "hotel/v1"
        small_registry hotel "clock_bookings" failed_run 5 one_override
      ≡ ok r)
    × Recorded failed_run 5 one_override r
apply_sync_result-failed_example =
    apply_sync_result-failed fresh as_text same_text "hotel/v1" small_registry hotel
      "clock_bookings" failed_run 5 one_override refl

abbrev rows : RegistryRows
rows = record {
  property_id = 1;
  property_key = "hotel";
  entries = record { room = room_101; row_id = 2 } ∷ [];
}

-- The recalculation of the room, which returns.
recalculated :
    (r : Database × Recalculation) × (recalculate_rooms fresh as_text same_text "hotel/v1" hotel
        2000 5 rows
        (2 ∷ [])
        one_override
      ≡ ok r)
    × Sound r.0
recalculated =
    Succeeds-ok {A = Database × Recalculation} (λ r. Sound r.0)
      (recalculate_rooms fresh as_text same_text "hotel/v1" hotel 2000 5 rows (2 ∷ []) one_override)
      (recalculate_rooms-Sound fresh as_text same_text "hotel/v1" hotel 2000 5 rows (2 ∷ [])
        one_override hotel-IsDaily (refl, tt) one_override-Sound)

recalculate_rooms-Counted_example : Counted one_override recalculated.0
recalculate_rooms-Counted_example =
    recalculate_rooms-Counted fresh as_text same_text "hotel/v1" hotel 2000 5 rows (2 ∷ [])
      one_override recalculated.0 recalculated.1

settle_room-version_example :
    Unchanged fresh as_text same_text "hotel/v1" hotel 2000 5 1 2 "r101" in_use
      (some served)
      one_override
      (settle fresh as_text same_text "hotel/v1" hotel 2000 5 1 2 "r101"
        (some heated)
        in_use
        (some served)
        one_override).0
    ⊎ Advanced fresh as_text same_text "hotel/v1" hotel 2000 5 1 2 "r101" in_use
        (some served)
        one_override
        (settle fresh as_text same_text "hotel/v1" hotel 2000 5 1 2 "r101"
          (some heated)
          in_use
          (some served)
          one_override).0
settle_room-version_example =
    settle_room-version fresh as_text same_text "hotel/v1" hotel 2000 5 1 2 "r101" (some heated)
      in_use (some served) one_override

settle_room-again_example :
    settle fresh as_text same_text "hotel/v1" hotel 3000 6 1 2 "r101" none in_use
      (some served)
      (settle fresh as_text same_text "hotel/v1" hotel 2000 5 1 2 "r101"
        (some heated)
        in_use
        (some served)
        one_override).0
    ≡ (
      (settle fresh as_text same_text "hotel/v1" hotel 2000 5 1 2 "r101"
          (some heated)
          in_use
          (some served)
          one_override).0,
      nothing,
    )
settle_room-again_example =
    settle_room-again fresh as_text same_text "hotel/v1" hotel 2000 5 1 2 "r101" in_use
      (some served) (some heated) none one_override 3000 6 tt refl

-- A guest whose room was another one.
abbrev moved : AssignmentRow
moved = record {
  id = 8;
  booking_id = 4;
  room_id = some 3;
  clock_room_id = some "102";
  physical_room_number = none;
  assigned_at = 1000;
  removed_at = none;
  is_current = true;
}

abbrev assigned : Database
assigned = record one_override { assignments = moved ∷ [] }

assigned-HasOneRoom : HasOneRoom assigned
assigned-HasOneRoom n = ground arith

sync_assignment-HasOneRoom_example :
    HasOneRoom (sync_assignment fresh 1 4 2000 5 rows guest assigned).0
sync_assignment-HasOneRoom_example =
    sync_assignment-HasOneRoom fresh 1 4 2000 5 rows guest assigned assigned-HasOneRoom

sync_assignment-affected_example :
    Covers
      (old_room (current_assignment 4 assigned))
      (new_room rows guest)
      assigned
      (sync_assignment fresh 1 4 2000 5 rows guest assigned)
sync_assignment-affected_example = sync_assignment-affected fresh 1 4 2000 5 rows guest assigned

abbrev next : SyncCursorState
next = record { last_success_at = some 3000; cursor_value = some "c" }

load_cursor_state-advance_cursor_example :
    load_cursor_state "hotel" "clock_bookings"
      (advance_cursor 1 "clock_bookings" next 3000 one_override)
    ≡ next
load_cursor_state-advance_cursor_example =
    load_cursor_state-advance_cursor "hotel" "clock_bookings" next 3000 one_override
      (record { id = 1; key = "hotel" }) refl

-- A command, a tick, and a synchronisation.
abbrev turns : List Turn
turns =
    command "r101" "mode" (some (codes "manual")) 2000 5
    ∷ policy_tick 2500 6
    ∷ synchronised run 7
    ∷ []

run_turns-Sound_example :
    All
      (Unfailing willing)
      (run_turns willing fresh no_float as_text same_text "hotel/v1" small_registry hotel
        "clock_bookings" turns one_override).1
    × Sound
        (run_turns willing fresh no_float as_text same_text "hotel/v1" small_registry hotel
          "clock_bookings" turns one_override).0
run_turns-Sound_example =
    run_turns-Sound willing fresh no_float as_text same_text "hotel/v1" small_registry hotel
      "clock_bookings" hotel-IsDaily (refl, tt) turns one_override
      (tt, (tt, (((refl, omega arith, refl), tt), tt))) one_override-Sound

-- The database after a synchronisation of the hotel, without its events.
abbrev synced : Database
synced = record one_override {
  properties = record { id = 1; key = "hotel" } ∷ [];
  outbox_events = [];
  sync_runs =
      record {
        id = 9;
        property_id = 1;
        started_at = 1000;
        finished_at = 2000;
        success = true;
        processed_bookings = 1;
        error_classification = none;
        correlation_id = 5;
      }
      ∷ [];
}

build_system_state-online_example :
    ((build_system_state zone synced "hotel" 3000 true true).status ≡ SystemStatus.online)
    ↔ IsClear synced (find (λ p. str_eq p.key "hotel") synced.properties) true true
build_system_state-online_example = build_system_state-online zone synced "hotel" 3000 true true
