-- ===== src/Policy/Control/Service/Registered.antt =====
-- The rows that the room of a command has.
use clock_ha_orchestrator.Prelude.{ℕ, ◌≡◌, refl, Option, none, some, List, String, eq_iff, ==_iff}
use clock_ha_orchestrator.Prelude.Results.{Result, ok, err}
use clock_ha_orchestrator.Domain.Temperature.{Float}
use clock_ha_orchestrator.Domain.Models.{HotelPolicy, Room, RoomRegistry}
use clock_ha_orchestrator.Policy.Control.Text.{ControlError}
use clock_ha_orchestrator.Policy.Control.Service.{
  is_property, is_room, refresh_room, new_room, property_or_new, room_or_new, ensure_property,
  ensure_room, settle_command,
}
use clock_ha_orchestrator.Persistence.Rows.{PropertyRow, RoomRow, OverrideRow, Payload}
use clock_ha_orchestrator.Persistence.Session.Queries.{find-update}
use clock_ha_orchestrator.Persistence.Session.{Database, find}

-- The query for the property's row finds one with the id.
abbrev pub HasProperty : String → ℕ → Database → Type 0
HasProperty key id db =
    (p : PropertyRow) × (find (is_property key) db.properties ≡ some p) × (p.id ≡ id)

-- The query for the room's row finds one with the id.
abbrev pub HasRoom : ℕ → String → ℕ → Database → Type 0
HasRoom property_id key id db =
    (r : RoomRow) × (find (is_room property_id key) db.rooms ≡ some r) × (r.id ≡ id)

module _ (uuid : ℕ → ℕ) where
  property_or_new-HasProperty :
      (key : String) (found : Option PropertyRow) (db : Database)
      → find (is_property key) db.properties ≡ found
      → HasProperty key (property_or_new uuid key found db).1 (property_or_new uuid key found db).0
  property_or_new-HasProperty key (some p) db e = (p, e, refl)
  property_or_new-HasProperty key none db e =
      (record { id = uuid db.drawn; key = key }, rw ((eq_iff key key).1 refl) refl, refl)

  pub ensure_property-HasProperty :
      (key : String) (db : Database)
      → HasProperty key (ensure_property uuid key db).1 (ensure_property uuid key db).0
  unfolding ensure_property
  ensure_property-HasProperty key db = property_or_new-HasProperty key _ db refl

  room_or_new-HasRoom :
      (property_id : ℕ) (room : Room) (found : Option RoomRow) (db : Database)
      → find (is_room property_id room.key) db.rooms ≡ found
      → HasRoom property_id room.key
          (room_or_new uuid property_id room found db).1
          (room_or_new uuid property_id room found db).0
  room_or_new-HasRoom property_id room (some r) db e = (
    refresh_room room r,
    find-update (is_room property_id room.key) (refresh_room room) db.rooms r (λ _ h. h) e,
    refl,
  )
  room_or_new-HasRoom property_id room none db e = (
    new_room property_id room (uuid db.drawn),
    rw ((==_iff property_id property_id).1 refl, (eq_iff room.key room.key).1 refl) refl,
    refl,
  )

  pub ensure_room-HasRoom :
      (property_id : ℕ) (room : Room) (db : Database)
      → HasRoom property_id room.key
          (ensure_room uuid property_id room db).1
          (ensure_room uuid property_id room db).0
  unfolding ensure_room
  ensure_room-HasRoom property_id room db = room_or_new-HasRoom property_id room _ db refl

  room_or_new-properties :
      (property_id : ℕ) (room : Room) (found : Option RoomRow) (db : Database)
      → (room_or_new uuid property_id room found db).0.properties ≡ db.properties
  room_or_new-properties property_id room (some r) db = refl
  room_or_new-properties property_id room none db = refl

  pub ensure_room-properties :
      (property_id : ℕ) (room : Room) (db : Database)
      → (ensure_room uuid property_id room db).0.properties ≡ db.properties
  unfolding ensure_room
  ensure_room-properties property_id room db = room_or_new-properties property_id room _ db

-- The end of a command leaves the rows of the property and the rooms.
pub settle_command-registry :
    (uuid : ℕ → ℕ) (parse : List ℕ → Option Float) (serialize : Payload → String) (prefix : String)
    (registry : RoomRegistry) (policy : HotelPolicy) (property_id room_id : ℕ) (key : String)
    (now id : ℕ) (result : Result ControlError (ℕ → OverrideRow)) (db : Database)
    → ((settle_command uuid parse serialize prefix registry policy property_id room_id key now id
          result db).0.properties
        ≡ db.properties)
      × ((settle_command uuid parse serialize prefix registry policy property_id room_id key now id
            result db).0.rooms
          ≡ db.rooms)
unfolding settle_command
settle_command-registry uuid parse serialize prefix registry policy property_id room_id key now id
      (err e) db =
    (refl, refl)
settle_command-registry uuid parse serialize prefix registry policy property_id room_id key now id
      (ok make) db =
    (refl, refl)
