-- ===== src/Clock/Rooms/Loading.antt =====
-- app/clock/db_sync.py: the bookings of the property, as the state machine takes them.
use clock_ha_orchestrator.Prelude.{ℕ, ◌&&◌, Option, none, some, List, [], ◌∷◌, String, ◌==◌, select}
use clock_ha_orchestrator.Prelude.Results.{Result, ok, ◌>>=◌}
use clock_ha_orchestrator.Domain.Models.{ValueError, NormalizedBooking, validate_dates}
use clock_ha_orchestrator.Persistence.Rows.{BookingRow, AssignmentRow}
use clock_ha_orchestrator.Persistence.Session.{Database, find}

abbrev pub assigned_room_id : Option AssignmentRow → Option String
assigned_room_id none = none
assigned_room_id (some a) = a.clock_room_id

abbrev pub assigned_room_number : Option AssignmentRow → Option String
assigned_room_number none = none
assigned_room_number (some a) = a.physical_room_number

-- The booking of a row, before its validator runs.
abbrev pub booking_of_row : String → BookingRow → Option AssignmentRow → NormalizedBooking
booking_of_row property_key row assignment = record {
  property_id = property_key;
  clock_booking_id = row.clock_booking_id;
  booking_status = row.booking_status;
  source_booking_status = row.source_booking_status;
  arrival_date = row.arrival_date;
  departure_date = row.departure_date;
  physical_room_id = assigned_room_id assignment;
  physical_room_number = assigned_room_number assignment;
  payload_hash = row.payload_hash;
  needs_attention = row.needs_attention;
  attention_reason = row.attention_reason;
}

unfoldable pub normalized_from_row :
    String → BookingRow → Option AssignmentRow → Result ValueError NormalizedBooking
unfolding validate_dates
normalized_from_row property_key row assignment =
    validate_dates (booking_of_row property_key row assignment)

module _ (property_key : String) (assignments : List AssignmentRow) where
  unfoldable pub normalized_rows : List BookingRow → Result ValueError (List NormalizedBooking)
  unfolding normalized_from_row
  normalized_rows [] = ok []
  normalized_rows (row ∷ rows) = do
    b ←
        normalized_from_row property_key row
          (find (λ a. (a.booking_id == row.id) && a.is_current) assignments)
    rest ← normalized_rows rows
    ok (b ∷ rest)

unfoldable pub load_normalized_bookings :
    ℕ → String → Database → Result ValueError (List NormalizedBooking)
unfolding normalized_rows
load_normalized_bookings property_id property_key db =
    normalized_rows property_key db.assignments
      (select (λ r. r.property_id == property_id) db.bookings)
