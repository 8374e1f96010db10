-- ===== src/Clock/Rooms/Counts.antt =====
-- The counters of a recalculation are the rows that it adds.
use clock_ha_orchestrator.Prelude.{
  ℕ, ◌+◌, ◌≡◌, Bool, true, false, Option, none, some, List, String, is_some, length, if-holds,
  arith,
}
use clock_ha_orchestrator.Prelude.Results.{ok}
use clock_ha_orchestrator.Domain.Enums.{is_automatic, is_manual_override}
use clock_ha_orchestrator.Domain.Models.{HotelPolicy, DesiredRoomIntent, RoomStateEvaluation}
use clock_ha_orchestrator.Policy.Control.Rows.{latest_room_state}
use clock_ha_orchestrator.Persistence.Rows.{OverrideRow, Payload, pms_state}
use clock_ha_orchestrator.Persistence.Session.{Database, add_room_state}
use clock_ha_orchestrator.Clock.Registry.{RegistryRows}
use clock_ha_orchestrator.Clock.Rooms.{
  SemanticState, semantic_state, same_hash, next_intent_version, pms_state_payload, booking_row_id,
  persisted_intent_version, with_version, Recalculation,
}
use clock_ha_orchestrator.Clock.Rooms.Steps.{recalculate_rooms-Holds}
use clock_ha_orchestrator.Clock.Rooms.Step.{
  room_pms_state, publish, state_row, count, end_inactive_override, publish_control, publish_intent,
  audit_attention, keep_state, store_state, settle_room, recalculate_rooms,
}

-- So many room states, outbox events and audit events more.
abbrev pub Adds : ℕ → ℕ → ℕ → Database → Database → Type 0
Adds states events audits before after =
    (length after.room_states ≡ length before.room_states + states)
    × (length after.outbox_events ≡ length before.outbox_events + events)
    × (length after.audit_events ≡ length before.audit_events + audits)

-- What a recalculation returns counts what it added.
abbrev pub Counted : Database → Database × Recalculation → Type 0
Counted before r =
    Adds r.1.room_states_created r.1.outbox_events_created r.1.audit_events_created before r.0

-- The five steps of a new state: the end of an override, the state itself, its intent, its control
-- state, and the mark for attention.
chain :
    (ended intent flag : ℕ) (a b c d e f : Database)
    → Adds 0 0 ended a b
    → Adds 1 1 0 b c
    → Adds 0 intent 0 c d
    → Adds 0 ended 0 d e
    → Adds 0 0 flag e f
    → Adds 1 (1 + intent + ended) (ended + flag) a f
chain ended intent flag a b c d e f p q r s t = ground arith

plus-Adds :
    (s e a s' e' a' : ℕ) (x y z : Database)
    → Adds s e a x y
    → Adds s' e' a' y z
    → Adds (s + s') (e + e') (a + a') x z
plus-Adds s e a s' e' a' x y z p q = ground arith

nothing_added : (db : Database) → Adds 0 0 0 db db
nothing_added db = ground arith

module _ (uuid : ℕ → ℕ) (serialize : Payload → String) (hash : SemanticState → String)
    (prefix : String) (policy : HotelPolicy) (now correlation_id : ℕ) where
  end-Adds :
      (property_id room_id : ℕ) (latest : Option OverrideRow) (state : RoomStateEvaluation)
      (db : Database)
      → Adds 0 0
          (count
            (end_inactive_override uuid serialize hash prefix policy now correlation_id property_id
              room_id latest state db).1)
          db
          (end_inactive_override uuid serialize hash prefix policy now correlation_id property_id
            room_id latest state db).0
  end-Adds property_id room_id none state db = nothing_added db
  end-Adds property_id room_id (some row) state db =
      if-holds {A = Database × Bool} (λ r. Adds 0 0 (count r.1) db r.0)
        (is_automatic row.control_mode) _ _ (λ _. nothing_added db)
        (λ _.
          if-holds {A = Database × Bool} (λ r. Adds 0 0 (count r.1) db r.0)
            (is_manual_override state.phase) _ _ (λ _. nothing_added db) (λ _. ground arith))

  control-Adds :
      (key : String) (ended : Bool) (db : Database)
      → Adds 0
          (count ended)
          0
          db
          (publish_control uuid serialize hash prefix policy now correlation_id key ended db)
  unfolding publish_control
  control-Adds key false db = nothing_added db
  control-Adds key true db = ground arith

  intent-Adds :
      (key : String) (intent : Option DesiredRoomIntent) (db : Database)
      → Adds 0
          (count (is_some intent))
          0
          db
          (publish_intent uuid serialize hash prefix policy now correlation_id key intent db)
  intent-Adds key none db = nothing_added db
  intent-Adds key (some i) db = ground arith

  attention-Adds :
      (flag : Bool) (property_id room_id : ℕ) (booking : Option ℕ) (db : Database)
      → Adds 0 0 (count flag) db (
          audit_attention uuid serialize hash prefix policy now correlation_id flag property_id
            room_id booking db)
  attention-Adds false property_id room_id booking db = nothing_added db
  attention-Adds true property_id room_id booking db = ground arith

  one_state :
      (property_id room_id : ℕ) (key : String) (state : RoomStateEvaluation) (booking : Option ℕ)
      (version : ℕ) (text : String) (db : Database)
      → Adds 1 1 0 db (
          publish uuid serialize hash prefix policy now correlation_id
            (room_pms_state prefix key)
            (pms_state (pms_state_payload state correlation_id))
            (add_room_state uuid
              (state_row uuid serialize hash prefix policy now correlation_id room_id state booking
                version text)
              db))
  one_state property_id room_id key state booking version text db = ground arith

  keep-Counted :
      (key : String) (ended : Bool) (before db : Database)
      → Adds 0 0 (count ended) before db
      → Counted before
          (keep_state uuid serialize hash prefix policy now correlation_id key ended db)
  unfolding keep_state
  keep-Counted key ended before db h = ground (arith, control-Adds key ended db)

  store-Counted :
      (property_id room_id : ℕ) (key : String) (state : RoomStateEvaluation)
      (intent : Option DesiredRoomIntent) (version : ℕ) (text : String) (ended : Bool)
      (before db : Database)
      → Adds 0 0 (count ended) before db
      → Counted before (
          store_state uuid serialize hash prefix policy now correlation_id property_id room_id key
            state intent version text ended db)
  unfolding store_state
  store-Counted property_id room_id key state intent version text ended before db h =
      let booking = booking_row_id property_id state.booking db.bookings in
      let stored =
        add_room_state uuid
          (state_row uuid serialize hash prefix policy now correlation_id room_id state booking
            version text)
          db in
      let pms =
        publish uuid serialize hash prefix policy now correlation_id (room_pms_state prefix key)
          (pms_state (pms_state_payload state correlation_id)) stored in
      let announced =
        publish_intent uuid serialize hash prefix policy now correlation_id key intent pms in
      let published =
        publish_control uuid serialize hash prefix policy now correlation_id key ended announced in
      chain (count ended) (count (is_some intent)) (count state.needs_attention) before db pms
        announced published
        (audit_attention uuid serialize hash prefix policy now correlation_id state.needs_attention
          property_id room_id booking published)
        h (one_state property_id room_id key state booking version text db)
        (intent-Adds key intent pms) (control-Adds key ended announced)
        (attention-Adds state.needs_attention property_id room_id booking published)

  settle_room-Counted :
      (property_id room_id : ℕ) (key : String) (latest : Option OverrideRow)
      (state : RoomStateEvaluation) (intent : Option DesiredRoomIntent) (db : Database)
      → Counted db (
          settle_room uuid serialize hash prefix policy now correlation_id property_id room_id key
            latest state intent db)
  unfolding settle_room
  settle_room-Counted property_id room_id key latest state intent db =
      let before = latest_room_state room_id db in
      let text = hash (semantic_state state intent) in
      let ended =
        end_inactive_override uuid serialize hash prefix policy now correlation_id property_id
          room_id latest state db in
      let next = with_version (next_intent_version before) intent in
      let version = persisted_intent_version next before in
      if-holds (Counted db) (same_hash before text)
        (keep_state uuid serialize hash prefix policy now correlation_id key ended.1 ended.0)
        (store_state uuid serialize hash prefix policy now correlation_id property_id room_id key
          state next version text ended.1 ended.0)
        (λ _. keep-Counted key ended.1 db ended.0 (end-Adds property_id room_id latest state db))
        (λ _.
          store-Counted property_id room_id key state next version text ended.1 db ended.0
            (end-Adds property_id room_id latest state db))

  -- A recalculation that returns has added as many room states, outbox events and audit events as its
  -- counters say.
  pub recalculate_rooms-Counted :
      (registry : RegistryRows) (ids : List ℕ) (db : Database) (r : Database × Recalculation)
      → recalculate_rooms uuid serialize hash prefix policy now correlation_id registry ids db
        ≡ ok r
      → Counted db r
  recalculate_rooms-Counted registry ids db r h =
      recalculate_rooms-Holds uuid serialize hash prefix policy now correlation_id Counted
        (λ db. nothing_added db) settle_room-Counted
        (λ a b c p q. plus-Adds _ _ _ _ _ _ a b.0 c.0 p q) registry ids db r h
