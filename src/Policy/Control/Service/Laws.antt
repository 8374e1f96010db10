-- ===== src/Policy/Control/Service/Laws.antt =====
-- What the steps of a command do to the tables.
use clock_ha_orchestrator.Prelude.{
  ℕ, ◌+◌, ◌<◌, ◌≡◌, refl, sym, subst, ap, ◌∙◌, Bool, true, false, not, ◌&&◌, Option, none, some,
  List, ◌∷◌, String, if◌then◌else◌, ◌==◌, ==_iff, select, All, is_some, arith,
}
use clock_ha_orchestrator.Prelude.Results.{Result, ok, err, Returns}
use clock_ha_orchestrator.Domain.Enums.{is_automatic}
use clock_ha_orchestrator.Domain.Time.{ZoneInfo, utc_time, to_hotel}
use clock_ha_orchestrator.Domain.Temperature.{Float}
use clock_ha_orchestrator.Domain.Models.{
  HotelPolicy, Room, RoomRegistry, is_active, before_limit, other_booking,
}
use clock_ha_orchestrator.Policy.Control.Text.{ControlError}
use clock_ha_orchestrator.Policy.Control.Rows.{
  control_state_payload_from_override, override_of_row, utc_option, ends_after, latest_override_row,
  override_row_is_active,
}
use clock_ha_orchestrator.Policy.Control.Draft.{build_override_row}
use clock_ha_orchestrator.Policy.Control.Draft.Laws.{
  Stamped, Limits, cleared, until_checkout, timed, IsCommandRow, build_override_row-IsCommandRow,
}
use clock_ha_orchestrator.Policy.Control.Service.{
  property_or_new, room_or_new, room_control_state, control_event, settle_command, command_audit,
  ensure_property, ensure_room, apply_to_room,
}
use clock_ha_orchestrator.Persistence.Rows.{
  Payload, control_state, AuditType, AuditEvent, PropertyRow, RoomRow, OverrideRow,
}
use clock_ha_orchestrator.Outbox.Store.{OutboxEvent, Status}
use clock_ha_orchestrator.Persistence.Session.Queries.{newest_head}
use clock_ha_orchestrator.Persistence.Session.{Database, newest}

-- Two databases have the same overrides, outbox, room states and bookings.
abbrev pub Same : Database → Database → Type 0
Same a b =
    (a.overrides ≡ b.overrides)
    × (a.outbox_events ≡ b.outbox_events)
    × (a.room_states ≡ b.room_states)
    × (a.bookings ≡ b.bookings)

-- The test of the row and the test of the override agree on the limits of a row.
Limits-agree :
    (z : ZoneInfo) (now start : ℕ) (auto until other : Bool) (booking checkout expires : Option ℕ)
    → Limits start auto until booking checkout expires
    → (if auto
        then false
        else if until
        then if other then false else before_limit (to_hotel z (utc_time now)) (utc_option checkout)
        else before_limit (to_hotel z (utc_time now)) (utc_option expires))
      ≡ ((if auto
            then false
            else if until
            then if is_some booking then ends_after checkout now else false
            else ends_after expires now)
          && not (until && other))
Limits-agree z now start _ _ other _ _ _ cleared = refl
Limits-agree z now start _ _ true _ _ _ (until_checkout b c p) = ground arith
Limits-agree z now start _ _ false _ _ _ (until_checkout b c p) = ground arith
Limits-agree z now start _ _ other _ _ _ (timed d m e) = ground arith

-- For a row with the limits of its mode, the manual override made of it is in force at a time exactly
-- if the row is and the override does not wait for the checkout of another booking.
pub override_of_row-active :
    (z : ZoneInfo) (row : OverrideRow) (now : ℕ) (own id : Option String)
    → IsCommandRow row
    → is_active (override_of_row row own) (to_hotel z (utc_time now)) id
      ≡ (override_row_is_active row now && not (row.until_checkout && other_booking own id))
unfolding override_row_is_active is_active
override_of_row-active z row now own id c =
    Limits-agree z now row.starts_at (is_automatic row.control_mode) row.until_checkout
      (other_booking own id) row.booking_id row.checkout_at row.expires_at c.1

-- One audit event more, of a type, at a time and for a command.
abbrev pub Audited : AuditType → ℕ → ℕ → Database → Database → Type 0
Audited event_type now id before after =
    (e : AuditEvent) × (after.audit_events ≡ e ∷ before.audit_events)
    × (e.event_type ≡ event_type)
    × (e.created_at ≡ now)
    × (e.correlation_id ≡ id)

-- Nothing is changed but the registry's rows.
abbrev pub Quiet : Database → Database → Type 0
Quiet a b = Same a b × (a.audit_events ≡ b.audit_events)

Same-refl : (db : Database) → Same db db
Same-refl db = (refl, refl, refl, refl)

pub Quiet-trans : (a b c : Database) → Quiet a b → Quiet b c → Quiet a c
Quiet-trans a b c p q = ((p.0.0 ∙ q.0.0, p.0.1 ∙ q.0.1, p.0.2 ∙ q.0.2, p.0.3 ∙ q.0.3), p.1 ∙ q.1)

pub property_or_new-Quiet :
    (uuid : ℕ → ℕ) (key : String) (found : Option PropertyRow) (db : Database)
    → Quiet (property_or_new uuid key found db).0 db
property_or_new-Quiet uuid key none db = (Same-refl db, refl)
property_or_new-Quiet uuid key (some row) db = (Same-refl db, refl)

pub room_or_new-Quiet :
    (uuid : ℕ → ℕ) (id : ℕ) (room : Room) (found : Option RoomRow) (db : Database)
    → Quiet (room_or_new uuid id room found db).0 db
room_or_new-Quiet uuid id room none db = (Same-refl db, refl)
room_or_new-Quiet uuid id room (some row) db = (Same-refl db, refl)

pub ensure_property-Quiet :
    (uuid : ℕ → ℕ) (key : String) (db : Database) → Quiet (ensure_property uuid key db).0 db
unfolding ensure_property
ensure_property-Quiet uuid key db = property_or_new-Quiet uuid key _ db

pub ensure_room-Quiet :
    (uuid : ℕ → ℕ) (id : ℕ) (room : Room) (db : Database) → Quiet (ensure_room uuid id room db).0 db
unfolding ensure_room
ensure_room-Quiet uuid id room db = room_or_new-Quiet uuid id room _ db

-- The text that an accepted command publishes.
abbrev pub control_text : (Payload → String) → String → ℕ → OverrideRow → String
control_text serialize key now row =
    serialize (control_state (control_state_payload_from_override key (some row) now none))

module _ (now id : ℕ) where
  abbrev pub Rejected : Database → Database → Type 0
  Rejected before after = Same after before × Audited AuditType.command_rejected now id before after

  pub Quiet-Rejected : (a b c : Database) → Quiet b a → Rejected b c → Rejected a c
  Quiet-Rejected a b c q r = (
    (r.0.0 ∙ q.0.0, r.0.1 ∙ q.0.1, r.0.2 ∙ q.0.2, r.0.3 ∙ q.0.3),
    (r.1.0, r.1.1 ∙ ap (λ l. r.1.0 ∷ l) q.1, r.1.2, r.1.3, r.1.4),
  )

  -- The new override of the room, which is its latest if every earlier one started before, the new event
  -- on the room's topic, and the audit event.
  abbrev pub Accepted : ℕ → String → (OverrideRow → String) → Database → Database → Type 0
  Accepted room_id topic text before after =
      (row : OverrideRow) × (event : OutboxEvent) × (after.overrides ≡ row ∷ before.overrides)
      × (after.outbox_events ≡ event ∷ before.outbox_events)
      × (row.room_id ≡ room_id)
      × (row.starts_at ≡ now)
      × (row.command_id ≡ id)
      × (event.topic ≡ topic)
      × (event.payload ≡ text row)
      × (event.status ≡ Status.pending)
      × (latest_override_row room_id after ≡ some row)
      × Audited AuditType.command_accepted now id before after

  pub Quiet-Accepted :
      (room_id : ℕ) (topic : String) (text : OverrideRow → String) (a b c : Database)
      → Quiet b a
      → Accepted room_id topic text b c
      → Accepted room_id topic text a c
  Quiet-Accepted room_id topic text a b c q (row, event, o, e, n, s, i, t, y, p, l, au) = (
    row,
    event,
    o ∙ ap (λ x. row ∷ x) q.0.0,
    e ∙ ap (λ x. event ∷ x) q.0.1,
    n,
    s,
    i,
    t,
    y,
    p,
    l,
    (au.0, au.1 ∙ ap (λ x. au.0 ∷ x) q.1, au.2, au.3, au.4),
  )

latest_of_head :
    (row : OverrideRow) (now : ℕ) (db after : Database)
    → after.overrides ≡ row ∷ db.overrides
    → row.starts_at ≡ now
    → All (λ r. r.starts_at < now) db.overrides
    → latest_override_row row.room_id after ≡ some row
unfolding latest_override_row
latest_of_head row now db after o s h =
    ap (λ l. newest (λ r. r.starts_at) (λ r. r.id) (select (λ r. r.room_id == row.room_id) l)) o
    ∙ newest_head (λ r. r.starts_at) (λ r. r.id) (λ r. r.room_id == row.room_id) row db.overrides
        ((==_iff row.room_id row.room_id).1 refl)
        (subst (λ t. All (λ r. r.starts_at < t) db.overrides) (sym s) h)

module _ (uuid : ℕ → ℕ) (parse : List ℕ → Option Float) (serialize : Payload → String)
    (prefix : String) (registry : RoomRegistry) (policy : HotelPolicy) (now id : ℕ) where
  pub settle_command-IsCommandRow :
      (property_id room_id : ℕ) (key : String) (result : Result ControlError (ℕ → OverrideRow))
      (db : Database)
      → Returns (λ make. (n : ℕ) → IsCommandRow (make n)) result
      → All IsCommandRow db.overrides
      → All IsCommandRow
          (settle_command uuid parse serialize prefix registry policy property_id room_id key now id
            result db).0.overrides
  unfolding settle_command
  settle_command-IsCommandRow property_id room_id key (err e) db r h = h
  settle_command-IsCommandRow property_id room_id key (ok make) db r h = (r (uuid db.drawn), h)

  pub apply_to_room-IsCommandRow :
      (property_id : ℕ) (room : Option Room) (field : String) (payload : Option (List ℕ))
      (db : Database)
      → All IsCommandRow db.overrides
      → All IsCommandRow
          (apply_to_room uuid parse serialize prefix registry policy property_id room field payload
            now id db).0.overrides
  unfolding apply_to_room
  apply_to_room-IsCommandRow property_id none field payload db h = h
  apply_to_room-IsCommandRow property_id (some room) field payload db h =
      settle_command-IsCommandRow property_id row.1 room.key
        (build_override_row parse policy row.1 field payload now id row.0) row.0
        (build_override_row-IsCommandRow parse policy row.1 field payload now id row.0 kept) kept
    where
      row : Database × ℕ
      row = ensure_room uuid property_id room db

      kept : All IsCommandRow row.0.overrides
      kept = subst (All IsCommandRow) (sym (ensure_room-Quiet uuid property_id room db).0.0) h

  pub settle_command-Rejected :
      (property_id room_id : ℕ) (key : String) (result : Result ControlError (ℕ → OverrideRow))
      (db : Database)
      → (settle_command uuid parse serialize prefix registry policy property_id room_id key now id
          result db).1.accepted
        ≡ false
      → Rejected now id db
          (settle_command uuid parse serialize prefix registry policy property_id room_id key now id
            result db).0
  unfolding settle_command
  settle_command-Rejected property_id room_id key (err e) db h = (
    Same-refl db,
    (
      command_audit AuditType.command_rejected property_id (some room_id) now id,
      refl,
      refl,
      refl,
      refl,
    ),
  )
  settle_command-Rejected property_id room_id key (ok make) db h = ground arith

  pub settle_command-Accepted :
      (property_id room_id : ℕ) (key : String) (result : Result ControlError (ℕ → OverrideRow))
      (db : Database)
      → Returns (λ make. (n : ℕ) → Stamped room_id now id (make n)) result
      → All (λ r. r.starts_at < now) db.overrides
      → (settle_command uuid parse serialize prefix registry policy property_id room_id key now id
          result db).1.accepted
        ≡ true
      → Accepted now id room_id
          (room_control_state prefix key)
          (control_text serialize key now)
          db
          (settle_command uuid parse serialize prefix registry policy property_id room_id key now id
            result db).0
  unfolding settle_command
  settle_command-Accepted property_id room_id key (err e) db r o h = ground arith
  settle_command-Accepted property_id room_id key (ok make) db r o h = (
    row,
    event,
    refl,
    refl,
    stamp.0,
    stamp.1,
    stamp.2,
    refl,
    refl,
    refl,
    subst
        (λ n.
          latest_override_row n
            (settle_command uuid parse serialize prefix registry policy property_id room_id key now
              id (ok make) db).0
          ≡ some row)
        stamp.0 (latest_of_head row now db _ refl stamp.1 o),
    (
      command_audit AuditType.command_accepted property_id (some room_id) now id,
      refl,
      refl,
      refl,
      refl,
    ),
  )
    where
      row : OverrideRow
      row = make (uuid db.drawn)

      stamp : Stamped room_id now id row
      stamp = r (uuid db.drawn)

      event : OutboxEvent
      event =
          control_event uuid parse serialize prefix registry policy key row now
            (uuid (db.drawn + 1))
