-- ===== src/Policy/Control/Service/Transactions.antt =====
-- `apply_mqtt_command` in its transaction, which the database engine may refuse.
use clock_ha_orchestrator.Prelude.{
  ℕ, ◌<◌, ◌≡◌, subst, Bool, true, false, Option, List, String, All, Bool-cases, inl, inr, arith,
}
use clock_ha_orchestrator.Prelude.Results.{Result, ok, err}
use clock_ha_orchestrator.Domain.Temperature.{Float}
use clock_ha_orchestrator.Domain.Models.{HotelPolicy, RoomRegistry}
use clock_ha_orchestrator.Policy.Control.Draft.Laws.{IsCommandRow}
use clock_ha_orchestrator.Policy.Control.Service.{apply_mqtt_command, CommandProcessingResult}
use clock_ha_orchestrator.Policy.Control.Service.Laws.{Rejected}
use clock_ha_orchestrator.Policy.Control.Service.Outcome.{
  command, AddsBounded, AcceptedFor, command_rows-IsCommandRow, command_rows-AddsBounded,
  command_rows-bookings, command_rows-Rejected, command_rows-Accepted,
}
use clock_ha_orchestrator.Persistence.Rows.{Payload}
use clock_ha_orchestrator.Persistence.Session.{Database, StoreError, not_stored}
use clock_ha_orchestrator.Persistence.Session.Queries.{stored-ok}

module _ (uuid : ℕ → ℕ) (parse : List ℕ → Option Float) (serialize : Payload → String)
    (prefix : String) (registry : RoomRegistry) (policy : HotelPolicy) (room_key field : String)
    (payload : Option (List ℕ)) (now id : ℕ) (takes : Database → Database → Bool) where
  -- The command in its transaction.
  abbrev transaction : Database → Result StoreError (Database × CommandProcessingResult)
  transaction db =
      apply_mqtt_command takes uuid parse serialize prefix registry policy room_key field payload
        now id db

  returned :
      (P : Database × CommandProcessingResult → Type 0) (db : Database)
      (r : Database × CommandProcessingResult)
      → transaction db ≡ ok r
      → P (command uuid parse serialize prefix registry policy room_key field payload now id db)
      → P r
  unfolding apply_mqtt_command
  returned P db r e h =
      subst P
        (stored-ok takes db
          (command uuid parse serialize prefix registry policy room_key field payload now id db) r
          e)
        h

  -- The transaction of a command that the engine takes leaves every override with a target exactly
  -- if it switches the HVAC on, and with limits of its mode: none for automatic, a booking and a
  -- checkout after its start, or one of the three durations; if the overrides before it were so. It
  -- adds one override at most, and if that lasts until the checkout, its booking is the one that
  -- the latest state of its room is about, and its checkout is the departure day of that booking at
  -- the policy's checkout time.
  pub apply_mqtt_command-IsCommandRow :
      (db : Database) (r : Database × CommandProcessingResult)
      → transaction db ≡ ok r
      → All IsCommandRow db.overrides
      → All IsCommandRow r.0.overrides
        × AddsBounded uuid parse serialize prefix registry policy room_key field payload now id db
            r.0
  apply_mqtt_command-IsCommandRow db r e h =
      returned
        (λ r.
          All IsCommandRow r.0.overrides
          × AddsBounded uuid parse serialize prefix registry policy room_key field payload now id db
              r.0)
        db r e
        (
          command_rows-IsCommandRow uuid parse serialize prefix registry policy room_key field
              payload now id db h,
          command_rows-AddsBounded uuid parse serialize prefix registry policy room_key field
              payload now id db,
        )

  -- The transaction leaves the bookings as they are.
  pub apply_mqtt_command-bookings :
      (db : Database) (r : Database × CommandProcessingResult)
      → transaction db ≡ ok r
      → r.0.bookings ≡ db.bookings
  apply_mqtt_command-bookings db r e =
      returned (λ r. r.0.bookings ≡ db.bookings) db r e
        (command_rows-bookings uuid parse serialize prefix registry policy room_key field payload
          now id db)

  -- A command that is not accepted, whatever the reason, and whose transaction the engine takes
  -- leaves the overrides, the outbox, the room states and the bookings as they were, and adds one
  -- audit event of the rejection.
  pub apply_mqtt_command-Rejected :
      (db : Database) (r : Database × CommandProcessingResult)
      → transaction db ≡ ok r
      → r.1.accepted ≡ false
      → Rejected now id db r.0
  apply_mqtt_command-Rejected db r e =
      returned (λ r. r.1.accepted ≡ false → Rejected now id db r.0) db r e
        (command_rows-Rejected uuid parse serialize prefix registry policy room_key field payload
          now id db)

  -- An accepted command whose transaction the engine takes adds one override for the row that the
  -- tables have for the commanded room of the property, with the command's time and id, which is
  -- that room's latest; one pending event on the room's topic with the control state that the
  -- override gives; and one audit event; if every override before it started earlier.
  pub apply_mqtt_command-Accepted :
      (db : Database) (r : Database × CommandProcessingResult)
      → transaction db ≡ ok r
      → All (λ r. r.starts_at < now) db.overrides
      → r.1.accepted ≡ true
      → AcceptedFor uuid parse serialize prefix registry policy room_key field payload now id db r.0
  apply_mqtt_command-Accepted db r e o =
      returned
        (λ r.
          r.1.accepted ≡ true
          → AcceptedFor uuid parse serialize prefix registry policy room_key field payload now id db
              r.0)
        db r e
        (command_rows-Accepted uuid parse serialize prefix registry policy room_key field payload
          now id db o)

  -- A transaction that fails is one that the engine refused.
  pub apply_mqtt_command-refused :
      (db : Database)
      → transaction db ≡ err not_stored
      → takes db
          (command uuid parse serialize prefix registry policy room_key field payload now id db).0
        ≡ false
  unfolding apply_mqtt_command
  apply_mqtt_command-refused db h =
      elim (Bool-cases (
        takes db
          (command uuid parse serialize prefix registry policy room_key field payload now id
            db).0)) [
              | inl y ↦ absurd (
                  let k : ok (
                        command uuid parse serialize prefix registry policy room_key field payload
                          now id db)
                      ≡ err not_stored =
                    rw y at h in
                  ground arith)
              | inr n ↦ n
            ]
