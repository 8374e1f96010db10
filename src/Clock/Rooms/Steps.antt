-- ===== src/Clock/Rooms/Steps.antt =====
-- What holds of every room's step holds of a recalculation.
use clock_ha_orchestrator.Prelude.{
  ℕ, ◌≡◌, Bool, true, false, Option, none, some, List, [], ◌∷◌, String, is_some, ◌==◌, sorted_by,
}
use clock_ha_orchestrator.Prelude.Results.{ok, Returns, Returns-bind, Returns-ok, ◌>>=◌}
use clock_ha_orchestrator.Domain.Models.{
  NormalizedBooking, HotelPolicy, DesiredRoomIntent, RoomStateEvaluation,
}
use clock_ha_orchestrator.Policy.Engine.{derive_room_intent}
use clock_ha_orchestrator.Policy.Control.Rows.{latest_override_row}
use clock_ha_orchestrator.Persistence.Rows.{OverrideRow, Payload}
use clock_ha_orchestrator.Persistence.Session.{Database, find}
use clock_ha_orchestrator.Clock.Registry.{RegistryEntry, RegistryRows, room_by_id}
use clock_ha_orchestrator.Clock.Rooms.{SemanticState, override_of_latest, Recalculation, nothing}
use clock_ha_orchestrator.Clock.Rooms.Loading.{load_normalized_bookings}
use clock_ha_orchestrator.Clock.Rooms.Step.{
  plus_counts, settle_room, evaluated, recalculate_entry, recalculate_known, recalculate_room,
  recalculate_each, recalculate_rooms,
}

module _ (uuid : ℕ → ℕ) (serialize : Payload → String) (hash : SemanticState → String)
    (prefix : String) (policy : HotelPolicy) (now correlation_id : ℕ)
    (Holds : Database → Database × Recalculation → Type 0)
    (at_rest : (db : Database) → Holds db (db, nothing))
    (settled : (property_id room_id : ℕ) (key : String) (latest : Option OverrideRow)
        (state : RoomStateEvaluation) (intent : Option DesiredRoomIntent) (db : Database)
      → Holds db (
          settle_room uuid serialize hash prefix policy now correlation_id property_id room_id key
            latest state intent db))
    (joined : (a : Database) (b c : Database × Recalculation)
      → Holds a b
      → Holds b.0 c
      → Holds a (c.0, plus_counts b.1 c.1)) where
  entry-Holds :
      (property_id : ℕ) (entry : RegistryEntry) (bookings : List NormalizedBooking) (db : Database)
      → Returns (Holds db) (
          recalculate_entry uuid serialize hash prefix policy now correlation_id property_id entry
            bookings db)
  unfolding recalculate_entry
  entry-Holds property_id entry bookings db =
      let latest = latest_override_row entry.row_id db in
      let override = override_of_latest latest now db.bookings in
      let state =
        evaluated uuid serialize hash prefix policy now correlation_id entry.room bookings
          override in
      Returns-bind (Holds db) (derive_room_intent state policy override correlation_id)
        (λ intent. ok (
          settle_room uuid serialize hash prefix policy now correlation_id property_id entry.row_id
            entry.room.key latest state intent db))
        (λ intent _. settled property_id entry.row_id entry.room.key latest state intent db)

  known-Holds :
      (property_id : ℕ) (entry : Option RegistryEntry) (has_row : Bool)
      (bookings : List NormalizedBooking) (db : Database)
      → Returns (Holds db) (
          recalculate_known uuid serialize hash prefix policy now correlation_id property_id entry
            has_row bookings db)
  unfolding recalculate_known
  known-Holds property_id none b bookings db = at_rest db
  known-Holds property_id (some e) false bookings db = at_rest db
  known-Holds property_id (some e) true bookings db = entry-Holds property_id e bookings db

  room-Holds :
      (registry : RegistryRows) (id : ℕ) (bookings : List NormalizedBooking) (db : Database)
      → Returns (Holds db) (
          recalculate_room uuid serialize hash prefix policy now correlation_id registry id bookings
            db)
  unfolding recalculate_room
  room-Holds registry id bookings db =
      known-Holds registry.property_id (room_by_id registry id)
        (is_some (find (λ r. r.id == id) db.rooms)) bookings db

  each-Holds :
      (registry : RegistryRows) (bookings : List NormalizedBooking) (ids : List ℕ) (db : Database)
      → Returns (Holds db) (
          recalculate_each uuid serialize hash prefix policy now correlation_id registry bookings
            ids db)
  unfolding recalculate_each
  each-Holds registry bookings [] db = at_rest db
  each-Holds registry bookings (id ∷ ids) db =
      let step =
        recalculate_room uuid serialize hash prefix policy now correlation_id registry id
          bookings in
      let run =
        recalculate_each uuid serialize hash prefix policy now correlation_id registry bookings
          ids in
      Returns-bind (Holds db) (step db)
        (λ first. run first.0 >>= λ others. ok (others.0, plus_counts first.1 others.1))
        (λ first e.
          Returns-bind (Holds db) (run first.0)
            (λ others. ok (others.0, plus_counts first.1 others.1))
            (λ others f.
              joined db first others
                (Returns-ok (Holds db) (step db) first e (room-Holds registry id bookings db))
                (Returns-ok (Holds first.0) (run first.0) others f
                  (each-Holds registry bookings ids first.0))))

  pub recalculate_rooms-Holds :
      (registry : RegistryRows) (ids : List ℕ) (db : Database) (r : Database × Recalculation)
      → recalculate_rooms uuid serialize hash prefix policy now correlation_id registry ids db
        ≡ ok r
      → Holds db r
  unfolding recalculate_rooms
  recalculate_rooms-Holds registry [] db r h =
      Returns-ok (Holds db)
        (recalculate_rooms uuid serialize hash prefix policy now correlation_id registry [] db) r h
        (at_rest db)
  recalculate_rooms-Holds registry (id ∷ ids) db r h =
      let run = λ (bookings : List NormalizedBooking).
        recalculate_each uuid serialize hash prefix policy now correlation_id registry bookings
          (sorted_by (λ n. n) (id ∷ ids)) db in
      let load = load_normalized_bookings registry.property_id registry.property_key db in
      Returns-ok (Holds db) (load >>= run) r h (
        Returns-bind (Holds db) load run
          (λ bookings _. each-Holds registry bookings (sorted_by (λ n. n) (id ∷ ids)) db))
