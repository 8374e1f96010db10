-- ===== src/Clock/DbSync/Laws.antt =====
-- The parts of the service on sound rows.
use clock_ha_orchestrator.Prelude.{
  ℕ, ◌≡◌, refl, true, false, not, ◌&&◌, Option, none, some, List, [], ◌∷◌, String, str_eq, ◌==◌,
  All, if-holds,
}
use clock_ha_orchestrator.Prelude.Results.{Succeeds}
use clock_ha_orchestrator.Domain.Enums.{is_unknown}
use clock_ha_orchestrator.Domain.Models.{
  NormalizedBooking, HotelPolicy, Room, RoomRegistry, RoomStateEvaluation, has_physical_room,
}
use clock_ha_orchestrator.Domain.StateMachine.Windows.{Overnight}
use clock_ha_orchestrator.Policy.Control.Service.{ensure_property, ensure_room}
use clock_ha_orchestrator.Policy.Control.Service.Laws.{
  Quiet, Quiet-trans, ensure_property-Quiet, ensure_room-Quiet,
}
use clock_ha_orchestrator.Persistence.Rows.{BookingRow, AssignmentRow, CursorRow, Payload}
use clock_ha_orchestrator.Persistence.Session.{Database}
use clock_ha_orchestrator.Persistence.Session.Queries.{update-All}
use clock_ha_orchestrator.Clock.Registry.{RegistryRows, ensure_rooms, ensure_registry, resolve_room}
use clock_ha_orchestrator.Clock.Bookings.{
  same_identity, same_id, row_id_of, end_assignment, add_known, current_assignment, audit_awaiting,
  booking_columns, booking_or_new, upsert_booking, AssignmentChange, remove_assignment,
  insert_assignment, change_assignment, sync_assignment, audit_unassigned_if_needed,
}
use clock_ha_orchestrator.Clock.Rooms.{SemanticState}
use clock_ha_orchestrator.Clock.Rooms.Soundness.{IsBookingRow, Sound, Keyed, Keeps, Keeps-Sound}
use clock_ha_orchestrator.Clock.DbSync.{
  SyncCursorState, Progress, cursor_or_new, process_booking, process_bookings,
}

-- A booking of the synchronisation that passed its validator, belongs to the property, and stays a
-- night.
abbrev pub IsSynced : String → NormalizedBooking → Type 0
IsSynced key b =
    (str_eq b.property_id key ≡ true)
    × Overnight b
    × ((is_unknown b.booking_status && not b.needs_attention) ≡ false)

pub Keeps-Quiet : (a b : Database) → Quiet b a → Keeps a b
Keeps-Quiet a b q = (q.0.0, q.0.3)

module _ (uuid : ℕ → ℕ) where
  rooms-Keeps :
      (property_id : ℕ) (rooms : List Room) (db : Database)
      → Quiet (ensure_rooms uuid property_id rooms db).0 db
  unfolding ensure_rooms
  rooms-Keeps property_id [] db = ((refl, refl, refl, refl), refl)
  rooms-Keeps property_id (room ∷ rooms) db =
      let row = ensure_room uuid property_id room db in
      Quiet-trans (ensure_rooms uuid property_id rooms row.0).0 row.0 db
        (rooms-Keeps property_id rooms row.0) (ensure_room-Quiet uuid property_id room db)

  rooms-Keyed :
      (property_id : ℕ) (rooms : List Room) (db : Database)
      → All (λ r. str_eq r.key "" ≡ false) rooms
      → All (λ e. str_eq e.room.key "" ≡ false) (ensure_rooms uuid property_id rooms db).1
  unfolding ensure_rooms
  rooms-Keyed property_id [] db k = tt
  rooms-Keyed property_id (room ∷ rooms) db k = (k.0, rooms-Keyed property_id rooms _ k.1)

  pub registry-Quiet :
      (registry : RoomRegistry) (db : Database) → Quiet (ensure_registry uuid registry db).0 db
  unfolding ensure_registry
  registry-Quiet registry db =
      let property = ensure_property uuid registry.property_key db in
      Quiet-trans (ensure_rooms uuid property.1 registry.rooms property.0).0 property.0 db
        (rooms-Keeps property.1 registry.rooms property.0)
        (ensure_property-Quiet uuid registry.property_key db)

  pub registry-Keyed :
      (registry : RoomRegistry) (db : Database)
      → All (λ r. str_eq r.key "" ≡ false) registry.rooms
      → Keyed (ensure_registry uuid registry db).1
  unfolding ensure_registry
  registry-Keyed registry db k = rooms-Keyed _ registry.rooms _ k

  booking_or_new-Sound :
      (property_id : ℕ) (b : NormalizedBooking) (found : Option BookingRow) (db : Database)
      → Overnight b
      → (is_unknown b.booking_status && not b.needs_attention) ≡ false
      → Sound db
      → Sound (booking_or_new uuid property_id b found db).0
  booking_or_new-Sound property_id b none db n u h = (h.0, ((n, u), h.1))
  booking_or_new-Sound property_id b (some row) db n u h = (
    h.0,
    update-All IsBookingRow (λ r. r.id == row.id) (λ r. booking_columns property_id b r.id)
        db.bookings (λ _ _. (n, u)) h.1,
  )

  module _ (property_id booking_id now correlation_id : ℕ) where
    insert-Keeps :
        (b : NormalizedBooking) (room_id : Option ℕ) (affected : List ℕ) (db : Database)
        → Keeps db
            (insert_assignment uuid property_id booking_id now correlation_id b room_id affected
              db).0
    insert-Keeps b none affected db = (refl, refl)
    insert-Keeps b (some id) affected db = (refl, refl)

    change-Keeps :
        (b : NormalizedBooking) (room_id : Option ℕ) (current : Option AssignmentRow)
        (db : Database)
        → Keeps db
            (change_assignment uuid property_id booking_id now correlation_id b room_id current
              db).0
    change-Keeps b room_id none db = insert-Keeps b room_id [] db
    change-Keeps b room_id (some a) db =
        if-holds {A = Database × AssignmentChange} (λ r. Keeps db r.0) (same_identity a b) _ _
          (λ _.
            if-holds {A = Database × AssignmentChange} (λ r. Keeps db r.0)
              (same_id a.room_id room_id) _ _ (λ _. (refl, refl)) (λ _. (refl, refl)))
          (λ _. insert-Keeps b room_id (add_known a.room_id []) (end_assignment a now db))

    remove-Keeps :
        (current : Option AssignmentRow) (db : Database)
        → Keeps db (remove_assignment uuid property_id booking_id now correlation_id current db).0
    remove-Keeps none db = (refl, refl)
    remove-Keeps (some a) db = (refl, refl)

    assignment-Keeps :
        (registry : RegistryRows) (b : NormalizedBooking) (db : Database)
        → Keeps db (sync_assignment uuid property_id booking_id now correlation_id registry b db).0
    unfolding sync_assignment
    assignment-Keeps registry b db =
        if-holds {A = Database × AssignmentChange} (λ r. Keeps db r.0) (has_physical_room b) _ _
          (λ _.
            change-Keeps b (row_id_of (resolve_room registry b)) (current_assignment booking_id db)
              db)
          (λ _. remove-Keeps (current_assignment booking_id db) db)

    awaiting-Keeps :
        (evaluation : Option RoomStateEvaluation) (db : Database)
        → Keeps db (audit_awaiting uuid property_id booking_id now correlation_id evaluation db).0
    awaiting-Keeps none db = (refl, refl)
    awaiting-Keeps (some e) db = (refl, refl)

    unassigned-Keeps :
        (policy : HotelPolicy) (b : NormalizedBooking) (db : Database)
        → Keeps db
            (audit_unassigned_if_needed uuid property_id booking_id now correlation_id policy b
              db).0
    unfolding audit_unassigned_if_needed
    unassigned-Keeps policy b db = awaiting-Keeps _ db

pub cursor_or_new-Keeps :
    (property_id : ℕ) (source : String) (next : SyncCursorState) (now : ℕ)
    (found : Option CursorRow) (db : Database)
    → Keeps db (cursor_or_new property_id source next now found db)
cursor_or_new-Keeps property_id source next now none db = (refl, refl)
cursor_or_new-Keeps property_id source next now (some row) db = (refl, refl)

module _ (uuid : ℕ → ℕ) (serialize : Payload → String) (hash : SemanticState → String)
    (prefix : String) (registry : RoomRegistry) (policy : HotelPolicy)
    (cursor_source : String) where
  process_booking-Sound :
      (rows : RegistryRows) (now correlation_id : ℕ) (b : NormalizedBooking)
      (before : Database × Progress)
      → IsSynced registry.property_key b
      → Sound before.0
      → Sound
          (process_booking uuid serialize hash prefix registry policy cursor_source rows now
            correlation_id b before).0
  unfolding process_booking upsert_booking
  process_booking-Sound rows now correlation_id b (db, before) s h =
      let row = upsert_booking uuid rows.property_id b db in
      let change = sync_assignment uuid rows.property_id row.1 now correlation_id rows b row.0 in
      let sound : Sound row.0 = booking_or_new-Sound uuid rows.property_id b _ db s.1 s.2 h in
      let changed : Sound change.0 =
        Keeps-Sound row.0 change.0
          (assignment-Keeps uuid rows.property_id row.1 now correlation_id rows b row.0) sound in
      if-holds {A = Database × ℕ} (λ r. Sound r.0) (has_physical_room b) _ _ (λ _. changed)
        (λ _.
          Keeps-Sound change.0
            (audit_unassigned_if_needed uuid rows.property_id row.1 now correlation_id policy b
              change.0).0
            (unassigned-Keeps uuid rows.property_id row.1 now correlation_id policy b change.0)
            changed)

  pub process_bookings-Sound :
      (rows : RegistryRows) (now correlation_id : ℕ) (bs : List NormalizedBooking)
      (before : Database × Progress)
      → All (IsSynced registry.property_key) bs
      → Sound before.0
      → Succeeds
          (λ p. Sound p.0)
          (process_bookings uuid serialize hash prefix registry policy cursor_source rows now
            correlation_id bs before)
  unfolding process_bookings
  process_bookings-Sound rows now correlation_id [] before s h = h
  process_bookings-Sound rows now correlation_id (b ∷ bs) before s h = rw s.0.0 (
      process_bookings-Sound rows now correlation_id bs _ s.1
        (process_booking-Sound rows now correlation_id b before s.0 h))
