-- ===== src/Persistence/Session.antt =====
-- A session of SQLAlchemy over the tables, inside one transaction. A table is the list of its rows,
-- the newest first, and a query without an order returns them so. `uuid` is the sequence of what
-- `uuid4` returns, and the database keeps how many were drawn.
pub mod Queries
use clock_ha_orchestrator.Prelude.{
  ℕ, ◌+◌, Bool, true, false, ◌&&◌, ◌||◌, Option, none, some, List, [], ◌∷◌, map, ltb, ◌==◌,
  if◌then◌else◌,
}
use clock_ha_orchestrator.Prelude.Results.{Result, ok, err}
use clock_ha_orchestrator.Outbox.Store.{OutboxEvent}
use clock_ha_orchestrator.Persistence.Rows.{
  PropertyRow, RoomRow, BookingRow, AssignmentRow, RoomStateRow, OverrideRow, CursorRow, SyncRunRow,
  AuditEvent,
}

pub record Database : Type 0 where
  pub properties : List PropertyRow
  pub rooms : List RoomRow
  pub bookings : List BookingRow
  pub assignments : List AssignmentRow
  pub room_states : List RoomStateRow
  pub overrides : List OverrideRow
  pub cursors : List CursorRow
  pub sync_runs : List SyncRunRow
  pub outbox_events : List OutboxEvent
  pub audit_events : List AuditEvent
  pub drawn : ℕ

-- `scalar_one_or_none` of a query that a unique constraint lets find one row at most.
abbrev pub find {ℓ} : {A : Type ℓ} → (A → Bool) → List A → Option A
find p [] = none
find p (x ∷ xs) = if p x then some x else find p xs

-- An assignment to the attributes of the rows that a query finds.
abbrev pub update_where {ℓ} : {A : Type ℓ} → (A → Bool) → (A → A) → List A → List A
update_where p change rows = map (λ r. if p r then change r else r) rows

-- `order_by(time.desc(), id.desc()).limit(1)`
abbrev pub later {ℓ} : {A : Type ℓ} → (A → ℕ) → (A → ℕ) → A → A → Bool
later time id x y = ltb (time y) (time x) || (time x == time y && ltb (id y) (id x))

abbrev pub newest_of {ℓ} : {A : Type ℓ} → (A → ℕ) → (A → ℕ) → A → Option A → A
newest_of time id x none = x
newest_of time id x (some y) = if later time id x y then x else y

abbrev pub newest {ℓ} : {A : Type ℓ} → (A → ℕ) → (A → ℕ) → List A → Option A
newest time id [] = none
newest time id (x ∷ xs) = some (newest_of time id x (newest time id xs))

-- The database engine may refuse the rows that a transaction changed, by a constraint of the schema or
-- because a JSON column does not take a payload. `takes` is the engine's answer for the tables before
-- the transaction and after it; a refusal is an exception, and the transaction is rolled back.
pub data StoreError : Type 0 where
  not_stored : StoreError

abbrev pub stored :
    {A : Type 0}
    → (Database → Database → Bool)
    → Database
    → Database × A
    → Result StoreError (Database × A)
stored takes db r = if takes db r.0 then ok r else err not_stored

abbrev pub add_audit : AuditEvent → Database → Database
add_audit e db = record db { audit_events = e ∷ db.audit_events }

-- `session.add` of a row whose id is drawn when it is flushed.
module _ (uuid : ℕ → ℕ) where
  abbrev pub add_override : (ℕ → OverrideRow) → Database → Database
  add_override make db = record db {
    overrides = make (uuid db.drawn) ∷ db.overrides;
    drawn = db.drawn + 1;
  }

  abbrev pub add_event : (ℕ → OutboxEvent) → Database → Database
  add_event make db = record db {
    outbox_events = make (uuid db.drawn) ∷ db.outbox_events;
    drawn = db.drawn + 1;
  }

  abbrev pub add_room_state : (ℕ → RoomStateRow) → Database → Database
  add_room_state make db = record db {
    room_states = make (uuid db.drawn) ∷ db.room_states;
    drawn = db.drawn + 1;
  }

  abbrev pub add_assignment : (ℕ → AssignmentRow) → Database → Database
  add_assignment make db = record db {
    assignments = make (uuid db.drawn) ∷ db.assignments;
    drawn = db.drawn + 1;
  }

  abbrev pub add_booking : (ℕ → BookingRow) → Database → Database
  add_booking make db = record db {
    bookings = make (uuid db.drawn) ∷ db.bookings;
    drawn = db.drawn + 1;
  }

  abbrev pub add_room : (ℕ → RoomRow) → Database → Database
  add_room make db = record db { rooms = make (uuid db.drawn) ∷ db.rooms; drawn = db.drawn + 1 }

  abbrev pub add_property : (ℕ → PropertyRow) → Database → Database
  add_property make db = record db {
    properties = make (uuid db.drawn) ∷ db.properties;
    drawn = db.drawn + 1;
  }
