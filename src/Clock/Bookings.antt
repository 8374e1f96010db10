-- ===== src/Clock/Bookings.antt =====
-- app/clock/db_sync.py: a booking of the synchronisation's result, and the history of its rooms.
use clock_ha_orchestrator.Prelude.{
  ℕ, Bool, true, false, not, ◌&&◌, Option, none, some, List, [], ◌∷◌, String, str_eq, opt_str_eq,
  ◌==◌, if◌then◌else◌, any,
}
use clock_ha_orchestrator.Domain.Time.{utc_time, to_hotel}
use clock_ha_orchestrator.Domain.Models.{
  NormalizedBooking, HotelPolicy, RoomStateEvaluation, has_physical_room,
}
use clock_ha_orchestrator.Domain.StateMachine.{evaluate_unassigned_booking}
use clock_ha_orchestrator.Persistence.Rows.{BookingRow, AssignmentRow, AuditType, AuditEvent}
use clock_ha_orchestrator.Persistence.Session.{
  Database, find, update_where, add_audit, add_assignment, add_booking,
}
use clock_ha_orchestrator.Clock.Registry.{RegistryEntry, RegistryRows, resolve_room}

-- `set.add` of an id, and of an id that may be missing.
abbrev pub add_id : ℕ → List ℕ → List ℕ
add_id x xs = if any (λ y. y == x) xs then xs else x ∷ xs

abbrev pub add_known : Option ℕ → List ℕ → List ℕ
add_known none xs = xs
add_known (some x) xs = add_id x xs

abbrev pub is_booking : ℕ → String → BookingRow → Bool
is_booking property_id clock_booking_id row =
    (row.property_id == property_id) && str_eq row.clock_booking_id clock_booking_id

-- The columns of a booking, which a new row has from the start and an old one after the update.
abbrev pub booking_columns : ℕ → NormalizedBooking → ℕ → BookingRow
booking_columns property_id b id = record {
  id = id;
  property_id = property_id;
  clock_booking_id = b.clock_booking_id;
  booking_status = b.booking_status;
  source_booking_status = b.source_booking_status;
  arrival_date = b.arrival_date;
  departure_date = b.departure_date;
  payload_hash = b.payload_hash;
  needs_attention = b.needs_attention;
  attention_reason = b.attention_reason;
}

module _ (uuid : ℕ → ℕ) where
  -- The database, the id of the row, and whether the booking is new or has another hash.
  abbrev pub booking_or_new :
      ℕ → NormalizedBooking → Option BookingRow → Database → Database × ℕ × Bool
  booking_or_new property_id b none db =
      (add_booking uuid (booking_columns property_id b) db, uuid db.drawn, true)
  booking_or_new property_id b (some row) db = (
    record db {
      bookings =
          update_where (λ r. r.id == row.id) (λ r. booking_columns property_id b r.id) db.bookings;
    },
    row.id,
    not (str_eq row.payload_hash b.payload_hash),
  )

  unfoldable pub upsert_booking : ℕ → NormalizedBooking → Database → Database × ℕ × Bool
  upsert_booking property_id b db =
      booking_or_new property_id b (find (is_booking property_id b.clock_booking_id) db.bookings) db

pub record AssignmentChange : Type 0 where
  pub affected_room_ids : List ℕ
  pub current_room_id : Option ℕ
  pub changed : Bool
  pub audit_events_created : ℕ

abbrev pub current_assignment : ℕ → Database → Option AssignmentRow
current_assignment booking_id db =
    find (λ a. (a.booking_id == booking_id) && a.is_current) db.assignments

abbrev pub same_identity : AssignmentRow → NormalizedBooking → Bool
same_identity a b =
    opt_str_eq a.clock_room_id b.physical_room_id
    && opt_str_eq a.physical_room_number b.physical_room_number

abbrev pub row_id_of : Option RegistryEntry → Option ℕ
row_id_of none = none
row_id_of (some e) = some e.row_id

abbrev pub same_id : Option ℕ → Option ℕ → Bool
same_id none none = true
same_id (some a) (some b) = a == b
same_id _ _ = false

-- `is_current = False`, `removed_at = observed_at` on one row.
abbrev pub end_assignment : AssignmentRow → ℕ → Database → Database
end_assignment a now db = record db {
  assignments =
      update_where (λ r. r.id == a.id) (λ r. record r { is_current = false; removed_at = some now })
        db.assignments;
}

abbrev pub booking_audit : AuditType → ℕ → Option ℕ → ℕ → ℕ → ℕ → AuditEvent
booking_audit event_type property_id room_id booking_id now correlation_id = record {
  property_id = property_id;
  room_id = room_id;
  booking_id = some booking_id;
  event_type = event_type;
  created_at = now;
  correlation_id = correlation_id;
}

abbrev pub new_assignment : ℕ → Option ℕ → NormalizedBooking → ℕ → ℕ → AssignmentRow
new_assignment booking_id room_id b now id = record {
  id = id;
  booking_id = booking_id;
  room_id = room_id;
  clock_room_id = b.physical_room_id;
  physical_room_number = b.physical_room_number;
  assigned_at = now;
  removed_at = none;
  is_current = true;
}

module _ (uuid : ℕ → ℕ) (property_id booking_id now correlation_id : ℕ) where
  -- The booking has no room any more.
  abbrev pub remove_assignment : Option AssignmentRow → Database → Database × AssignmentChange
  remove_assignment none db = (
    db,
    record {
      affected_room_ids = [];
      current_room_id = none;
      changed = false;
      audit_events_created = 0;
    },
  )
  remove_assignment (some a) db = (
    add_audit
        (booking_audit AuditType.assignment_removed property_id a.room_id booking_id now
          correlation_id)
        (end_assignment a now db),
    record {
      affected_room_ids = add_known a.room_id [];
      current_room_id = none;
      changed = true;
      audit_events_created = 1;
    },
  )

  -- The booking is in the room it was in, which the registry may map elsewhere now.
  abbrev pub remap_assignment : AssignmentRow → Option ℕ → Database → Database × AssignmentChange
  remap_assignment a room_id db =
      if same_id a.room_id room_id
      then (
        db,
        record {
          affected_room_ids = [];
          current_room_id = a.room_id;
          changed = false;
          audit_events_created = 0;
        },
      )
      else (
        record db {
          assignments =
              update_where (λ r. r.id == a.id) (λ r. record r { room_id = room_id }) db.assignments;
        },
        record {
          affected_room_ids = add_known room_id (add_known a.room_id []);
          current_room_id = room_id;
          changed = true;
          audit_events_created = 0;
        },
      )

  -- A new row, with the audit events of a change and of a room that the registry does not have.
  abbrev pub insert_assignment :
      NormalizedBooking → Option ℕ → List ℕ → Database → Database × AssignmentChange
  insert_assignment b none affected db = (
    add_audit
        (booking_audit AuditType.room_not_in_registry property_id none booking_id now
          correlation_id)
        (add_audit
          (booking_audit AuditType.assignment_changed property_id none booking_id now
            correlation_id)
          (add_assignment uuid (new_assignment booking_id none b now) db)),
    record {
      affected_room_ids = affected;
      current_room_id = none;
      changed = true;
      audit_events_created = 2;
    },
  )
  insert_assignment b (some room_id) affected db = (
    add_audit
        (booking_audit AuditType.assignment_changed property_id (some room_id) booking_id now
          correlation_id)
        (add_assignment uuid (new_assignment booking_id (some room_id) b now) db),
    record {
      affected_room_ids = add_id room_id affected;
      current_room_id = some room_id;
      changed = true;
      audit_events_created = 1;
    },
  )

  abbrev pub change_assignment :
      NormalizedBooking → Option ℕ → Option AssignmentRow → Database → Database × AssignmentChange
  change_assignment b room_id none db = insert_assignment b room_id [] db
  change_assignment b room_id (some a) db =
      if same_identity a b
      then remap_assignment a room_id db
      else insert_assignment b room_id (add_known a.room_id []) (end_assignment a now db)

  unfoldable pub sync_assignment :
      RegistryRows → NormalizedBooking → Database → Database × AssignmentChange
  unfolding resolve_room
  sync_assignment registry b db =
      let current = current_assignment booking_id db in
      if has_physical_room b
      then change_assignment b (row_id_of (resolve_room registry b)) current db
      else remove_assignment current db

  -- The database, and how many audit events it got.
  abbrev pub audit_awaiting : Option RoomStateEvaluation → Database → Database × ℕ
  audit_awaiting none db = (db, 0)
  audit_awaiting (some _) db = (
    add_audit
        (booking_audit AuditType.awaiting_assignment property_id none booking_id now correlation_id)
        db,
    1,
  )

  unfoldable pub audit_unassigned_if_needed :
      HotelPolicy → NormalizedBooking → Database → Database × ℕ
  unfolding evaluate_unassigned_booking
  audit_unassigned_if_needed policy b db =
      let hotel_now = to_hotel policy.property.tzinfo (utc_time now) in
      audit_awaiting (evaluate_unassigned_booking b hotel_now policy) db
