-- ===== src/Policy/Control/Service/Outcome.antt =====
-- What a command does to the tables: every branch of `command_rows`.
use clock_ha_orchestrator.Prelude.Results.{Result, ok, err, Returns}
use clock_ha_orchestrator.Policy.Control.Text.{ControlError}
use clock_ha_orchestrator.Prelude.{
  ◌⊎◌, inl, inr, ap, ◌∙◌, ℕ, ◌<◌, ◌≡◌, refl, sym, subst, true, false, Option, none, some, List, [],
  ◌∷◌, String, All, Present, eq_iff, arith,
}
use clock_ha_orchestrator.Domain.Temperature.{Float}
use clock_ha_orchestrator.Domain.Models.{HotelPolicy, Room, RoomRegistry}
use clock_ha_orchestrator.Policy.Control.Draft.{build_override_row}
use clock_ha_orchestrator.Policy.Control.Draft.Laws.{IsCommandRow, build_override_row-Stamped}
use clock_ha_orchestrator.Policy.Control.Draft.Boundaries.{
  EndsWithStay, EndsWithStay-same, build_override_row-EndsWithStay,
}
use clock_ha_orchestrator.Policy.Control.Service.Registered.{
  HasProperty, HasRoom, ensure_property-HasProperty, ensure_room-HasRoom, ensure_room-properties,
  settle_command-registry,
}
use clock_ha_orchestrator.Policy.Control.Service.{
  is_property, is_room, room_control_state, registry_room, ensure_property, ensure_room,
  command_audit, settle_command, apply_to_room, command_rows, CommandProcessingResult,
}
use clock_ha_orchestrator.Policy.Control.Service.Laws.{
  Rejected, Accepted, Quiet, Quiet-trans, control_text, Quiet-Rejected, Quiet-Accepted,
  ensure_property-Quiet, ensure_room-Quiet, apply_to_room-IsCommandRow, settle_command-Rejected,
  settle_command-Accepted,
}
use clock_ha_orchestrator.Persistence.Rows.{OverrideRow, AuditType, Payload}
use clock_ha_orchestrator.Persistence.Session.{Database, find}

registry_room-key :
    (key : String) (rooms : List Room) → Present (λ r. r.key ≡ key) (registry_room key rooms)
registry_room-key key [] = tt
registry_room-key key (r ∷ rs) = ground (arith, eq_iff r.key key, registry_room-key key rs)

module _ (uuid : ℕ → ℕ) (parse : List ℕ → Option Float) (serialize : Payload → String)
    (prefix : String) (registry : RoomRegistry) (policy : HotelPolicy) (room_key field : String)
    (payload : Option (List ℕ)) (now id : ℕ) where
  abbrev run : ℕ → Option Room → Database → Database × CommandProcessingResult
  unfolding apply_to_room
  run property_id room db =
      apply_to_room uuid parse serialize prefix registry policy property_id room field payload now
        id db

  -- The end of the command, for a room whose row is at hand.
  abbrev settled : ℕ → Room → Database × ℕ → Database × CommandProcessingResult
  unfolding settle_command build_override_row
  settled property_id room row =
      settle_command uuid parse serialize prefix registry policy property_id row.1 room.key now id
        (build_override_row parse policy row.1 field payload now id row.0) row.0

  -- The property's rows are as they were, and the room of the key has a row, for which the command is
  -- accepted.
  abbrev AcceptedRoom : ℕ → String → Database → Database → Type 0
  AcceptedRoom property_id key before after =
      (after.properties ≡ before.properties)
      × (room_id : ℕ) × HasRoom property_id key room_id after
      × Accepted now id room_id (room_control_state prefix key) (control_text serialize key now)
          before after

  apply_to_room-Rejected :
      (property_id : ℕ) (room : Option Room) (db : Database)
      → (run property_id room db).1.accepted ≡ false
      → Rejected now id db (run property_id room db).0
  unfolding run apply_to_room
  apply_to_room-Rejected property_id none db h = (
    (refl, refl, refl, refl),
    (command_audit AuditType.command_rejected property_id none now id, refl, refl, refl, refl),
  )
  apply_to_room-Rejected property_id (some room) db h =
      Quiet-Rejected now id db row.0 (settled property_id room row).0
        (ensure_room-Quiet uuid property_id room db)
        (settle_command-Rejected uuid parse serialize prefix registry policy now id property_id
          row.1 room.key (build_override_row parse policy row.1 field payload now id row.0) row.0 h)
    where
      row : Database × ℕ
      row = ensure_room uuid property_id room db

  apply_to_room-Accepted :
      (property_id : ℕ) (room : Option Room) (db : Database)
      → Present (λ r. r.key ≡ room_key) room
      → All (λ r. r.starts_at < now) db.overrides
      → (run property_id room db).1.accepted ≡ true
      → AcceptedRoom property_id room_key db (run property_id room db).0
  unfolding run apply_to_room
  apply_to_room-Accepted property_id none db k o h = ground arith
  apply_to_room-Accepted property_id (some room) db k o h =
      let row = ensure_room uuid property_id room db in
      let made = build_override_row parse policy row.1 field payload now id row.0 in
      let kept =
        settle_command-registry uuid parse serialize prefix registry policy property_id row.1
          room.key now id made row.0 in
      let (found, e, i) = ensure_room-HasRoom uuid property_id room db in
      subst (λ key. AcceptedRoom property_id key db (settled property_id room row).0) k
        (
          kept.0 ∙ ensure_room-properties uuid property_id room db,
          row.1,
          (found, ap (find (is_room property_id room.key)) kept.1 ∙ e, i),
          Quiet-Accepted now id row.1 (room_control_state prefix room.key)
              (control_text serialize room.key now) db row.0 (settled property_id room row).0
              (ensure_room-Quiet uuid property_id room db)
              (settle_command-Accepted uuid parse serialize prefix registry policy now id
                property_id row.1 room.key made row.0
                (build_override_row-Stamped parse policy row.1 field payload now id row.0)
                (subst (All (λ r. r.starts_at < now))
                  (sym (ensure_room-Quiet uuid property_id room db).0.0) o)
                h),
        )

  -- The command itself, and what it is given by the row of the property.
  abbrev pub command : Database → Database × CommandProcessingResult
  command db =
      command_rows uuid parse serialize prefix registry policy room_key field payload now id db

  abbrev registered : Option Room
  registered = registry_room room_key registry.rooms

  abbrev property : Database → Database × ℕ
  unfolding ensure_property
  property db = ensure_property uuid registry.property_key db

  pub command_rows-IsCommandRow :
      (db : Database) → All IsCommandRow db.overrides → All IsCommandRow (command db).0.overrides
  unfolding command_rows
  command_rows-IsCommandRow db h =
      apply_to_room-IsCommandRow uuid parse serialize prefix registry policy now id (property db).1
        registered field payload (property db).0
        (subst (All IsCommandRow) (sym (ensure_property-Quiet uuid registry.property_key db).0.0) h)

  settle-bookings :
      (property_id : ℕ) (room : Room) (row : Database × ℕ)
      (result : Result ControlError (ℕ → OverrideRow))
      → (settle_command uuid parse serialize prefix registry policy property_id row.1 room.key now
          id result row.0).0.bookings
        ≡ row.0.bookings
  unfolding settle_command
  settle-bookings property_id room row (err e) = refl
  settle-bookings property_id room row (ok make) = refl

  apply_to_room-bookings :
      (property_id : ℕ) (room : Option Room) (db : Database)
      → (run property_id room db).0.bookings ≡ db.bookings
  unfolding run apply_to_room
  apply_to_room-bookings property_id none db = refl
  apply_to_room-bookings property_id (some room) db =
      let row = ensure_room uuid property_id room db in
      settle-bookings property_id room row
        (build_override_row parse policy row.1 field payload now id row.0)
      ∙ (ensure_room-Quiet uuid property_id room db).0.3

  pub command_rows-bookings : (db : Database) → (command db).0.bookings ≡ db.bookings
  unfolding command_rows
  command_rows-bookings db =
      apply_to_room-bookings (property db).1 registered (property db).0
      ∙ (ensure_property-Quiet uuid registry.property_key db).0.3

  pub command_rows-Rejected :
      (db : Database) → (command db).1.accepted ≡ false → Rejected now id db (command db).0
  unfolding command_rows
  command_rows-Rejected db h =
      Quiet-Rejected now id db (property db).0 (command db).0
        (ensure_property-Quiet uuid registry.property_key db)
        (apply_to_room-Rejected (property db).1 registered (property db).0 h)

  -- The command adds no override, or one that ends with a stay if it lasts until the checkout.
  abbrev pub AddsBounded : Database → Database → Type 0
  AddsBounded before after =
      (after.overrides ≡ before.overrides)
      ⊎ ((row : OverrideRow) × (after.overrides ≡ row ∷ before.overrides)
          × EndsWithStay policy.property before row)

  settle-AddsBounded :
      (property_id : ℕ) (room : Room) (row : Database × ℕ) (before : Database)
      (result : Result ControlError (ℕ → OverrideRow))
      → Quiet row.0 before
      → Returns (λ make. (n : ℕ) → EndsWithStay policy.property row.0 (make n)) result
      → AddsBounded before
          (settle_command uuid parse serialize prefix registry policy property_id row.1 room.key now
            id result row.0).0
  unfolding settle_command
  settle-AddsBounded property_id room row before (err e) q h = inl q.0.0
  settle-AddsBounded property_id room row before (ok make) q h = inr (
    make (uuid row.0.drawn),
    ap (λ l. make (uuid row.0.drawn) ∷ l) q.0.0,
    EndsWithStay-same policy.property row.0 before (make (uuid row.0.drawn)) q.0.2 q.0.3
        (h (uuid row.0.drawn)),
  )

  apply_to_room-AddsBounded :
      (property_id : ℕ) (room : Option Room) (before db : Database)
      → Quiet db before
      → AddsBounded before (run property_id room db).0
  unfolding run apply_to_room
  apply_to_room-AddsBounded property_id none before db q = inl q.0.0
  apply_to_room-AddsBounded property_id (some room) before db q =
      let row = ensure_room uuid property_id room db in
      settle-AddsBounded property_id room row before
        (build_override_row parse policy row.1 field payload now id row.0)
        (Quiet-trans row.0 db before (ensure_room-Quiet uuid property_id room db) q)
        (build_override_row-EndsWithStay parse policy row.1 field payload now id row.0)

  pub command_rows-AddsBounded : (db : Database) → AddsBounded db (command db).0
  unfolding command_rows
  command_rows-AddsBounded db =
      apply_to_room-AddsBounded (property db).1 registered db (property db).0
        (ensure_property-Quiet uuid registry.property_key db)

  -- The rows of the property and of the room of the key are there, and the command is accepted for
  -- that room.
  abbrev pub AcceptedFor : Database → Database → Type 0
  AcceptedFor before after =
      (property_id : ℕ) × (room_id : ℕ) × HasProperty registry.property_key property_id after
      × HasRoom property_id room_key room_id after
      × Accepted now id room_id (room_control_state prefix room_key)
          (control_text serialize room_key now) before after

  pub command_rows-Accepted :
      (db : Database)
      → All (λ r. r.starts_at < now) db.overrides
      → (command db).1.accepted ≡ true
      → AcceptedFor db (command db).0
  unfolding command_rows
  command_rows-Accepted db o h =
      let quiet = ensure_property-Quiet uuid registry.property_key db in
      let (kept, room_id, has_room, accepted) =
        apply_to_room-Accepted (property db).1 registered (property db).0
          (registry_room-key room_key registry.rooms)
          (subst (All (λ r. r.starts_at < now)) (sym quiet.0.0) o) h in
      let (found, e, i) = ensure_property-HasProperty uuid registry.property_key db in
      (
        (property db).1,
        room_id,
        (found, ap (find (is_property registry.property_key)) kept ∙ e, i),
        has_room,
        Quiet-Accepted now id room_id (room_control_state prefix room_key)
            (control_text serialize room_key now) db (property db).0 (command db).0 quiet accepted,
      )
