-- ===== src/Clock/Registry.antt =====
-- app/clock/db_sync.py: the rows of the registry's rooms, and the room that a booking is in.
use clock_ha_orchestrator.Prelude.{
  ℕ, Bool, ◌&&◌, Option, none, some, List, [], ◌∷◌, String, str_eq, opt_str_eq, ◌==◌, if◌then◌else◌,
  truthy,
}
use clock_ha_orchestrator.Domain.Models.{NormalizedBooking, Room, RoomRegistry}
use clock_ha_orchestrator.Policy.Control.Service.{ensure_property, ensure_room}
use clock_ha_orchestrator.Persistence.Session.{Database}

-- A room of the registry, with the id of its row.
pub record RegistryEntry : Type 0 where
  pub room : Room
  pub row_id : ℕ

-- The three dictionaries of `RegistryRows` are lookups in the entries, the last of a key first.
pub record RegistryRows : Type 0 where
  pub property_id : ℕ
  pub property_key : String
  pub entries : List RegistryEntry

abbrev pub last_match : (RegistryEntry → Bool) → List RegistryEntry → Option RegistryEntry
last_match p [] = none
last_match p (e ∷ es) = elim (last_match p es) [
  | none ↦ if p e then some e else none
  | some later ↦ some later
]

abbrev pub room_by_key : RegistryRows → String → Option RegistryEntry
room_by_key g key = last_match (λ e. str_eq e.room.key key) g.entries

abbrev pub room_by_clock_id : RegistryRows → String → Option RegistryEntry
room_by_clock_id g id =
    last_match (λ e. truthy e.room.clock_room_id && opt_str_eq e.room.clock_room_id (some id))
      g.entries

abbrev pub room_by_id : RegistryRows → ℕ → Option RegistryEntry
room_by_id g id = last_match (λ e. e.row_id == id) g.entries

module _ (uuid : ℕ → ℕ) where
  unfoldable pub ensure_rooms : ℕ → List Room → Database → Database × List RegistryEntry
  unfolding ensure_room
  ensure_rooms property_id [] db = (db, [])
  ensure_rooms property_id (room ∷ rooms) db =
      let row = ensure_room uuid property_id room db in
      let rest = ensure_rooms property_id rooms row.0 in
      (rest.0, record { room = room; row_id = row.1 } ∷ rest.1)

  unfoldable pub ensure_registry : RoomRegistry → Database → Database × RegistryRows
  unfolding ensure_property ensure_rooms
  ensure_registry registry db =
      let property = ensure_property uuid registry.property_key db in
      let rows = ensure_rooms property.1 registry.rooms property.0 in
      (
        rows.0,
        record { property_id = property.1; property_key = registry.property_key; entries = rows.1 },
      )

-- A lookup by a text, unless it is missing or empty.
abbrev pub lookup_truthy : (String → Option RegistryEntry) → Option String → Option RegistryEntry
lookup_truthy get none = none
lookup_truthy get (some text) = if truthy (some text) then get text else none

abbrev pub or_else : Option RegistryEntry → Option RegistryEntry → Option RegistryEntry
or_else none other = other
or_else (some e) other = some e

unfoldable pub resolve_room : RegistryRows → NormalizedBooking → Option RegistryEntry
resolve_room g b =
    or_else (lookup_truthy (room_by_clock_id g) b.physical_room_id)
      (lookup_truthy (room_by_key g) b.physical_room_number)
