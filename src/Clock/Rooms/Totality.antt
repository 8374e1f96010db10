-- ===== src/Clock/Rooms/Totality.antt =====
-- A recalculation never raises on sound rows, and leaves them sound.
use clock_ha_orchestrator.Prelude.{
  ℕ, ◌≡◌, Bool, true, false, Option, none, some, List, [], ◌∷◌, String, str_eq, ◌==◌, sorted_by,
  All, Present, if-holds,
}
use clock_ha_orchestrator.Prelude.Results.{ok, ◌>>=◌, Succeeds, Succeeds-bind, is_ok-Succeeds}
use clock_ha_orchestrator.Domain.Time.{utc_time, to_hotel}
use clock_ha_orchestrator.Domain.Models.{
  NormalizedBooking, HotelPolicy, DesiredRoomIntent, RoomStateEvaluation,
}
use clock_ha_orchestrator.Domain.StateMachine.Windows.{IsDaily, Overnight}
use clock_ha_orchestrator.Policy.Engine.{derive_room_intent}
use clock_ha_orchestrator.Policy.Engine.Totality.{derive_room_intent_total}
use clock_ha_orchestrator.Policy.Control.Rows.{latest_room_state, latest_override_row}
use clock_ha_orchestrator.Policy.Control.Draft.Laws.{IsCommandRow}
use clock_ha_orchestrator.Persistence.Rows.{OverrideRow, Payload, pms_state}
use clock_ha_orchestrator.Persistence.Session.{Database, add_room_state}
use clock_ha_orchestrator.Persistence.Session.Queries.{newest-Present, select-All}
use clock_ha_orchestrator.Clock.Registry.{RegistryEntry, RegistryRows, room_by_id}
use clock_ha_orchestrator.Clock.Rooms.{
  semantic_state, same_hash, pms_state_payload, booking_row_id, next_intent_version,
  persisted_intent_version, with_version, SemanticState, override_of_latest, Recalculation,
}
use clock_ha_orchestrator.Clock.Rooms.Loading.{load_normalized_bookings}
use clock_ha_orchestrator.Clock.Rooms.Step.{
  room_pms_state, publish, state_row, end_inactive_override, publish_control, publish_intent,
  audit_attention, keep_state, store_state, settle_room, evaluated, recalculate_entry,
  recalculate_known, recalculate_room, recalculate_each, recalculate_rooms, plus_counts,
}
use clock_ha_orchestrator.Clock.Rooms.Soundness.{
  IsBookingRow, Sound, Keyed, latest-Fit, rows-Succeed, last-Present, Keeps, Keeps-trans,
  Keeps-Sound, end-Sound, control-Keeps, intent-Keeps, attention-Keeps,
}

module _ (uuid : ℕ → ℕ) (serialize : Payload → String) (hash : SemanticState → String)
    (prefix : String) (policy : HotelPolicy) (now correlation_id : ℕ) where
  store-Keeps :
      (property_id room_id : ℕ) (key : String) (state : RoomStateEvaluation)
      (intent : Option DesiredRoomIntent) (version : ℕ) (text : String) (ended : Bool)
      (db : Database)
      → Keeps db
          (store_state uuid serialize hash prefix policy now correlation_id property_id room_id key
            state intent version text ended db).0
  unfolding store_state
  store-Keeps property_id room_id key state intent version text ended db =
      let booking = booking_row_id property_id state.booking db.bookings in
      let stored =
        add_room_state uuid
          (state_row uuid serialize hash prefix policy now correlation_id room_id state booking
            version text)
          db in
      let pms =
        publish uuid serialize hash prefix policy now correlation_id (room_pms_state prefix key)
          (pms_state (pms_state_payload state correlation_id)) stored in
      let announced =
        publish_intent uuid serialize hash prefix policy now correlation_id key intent pms in
      let published =
        publish_control uuid serialize hash prefix policy now correlation_id key ended announced in
      let marked =
        audit_attention uuid serialize hash prefix policy now correlation_id state.needs_attention
          property_id room_id booking published in
      Keeps-trans db announced marked
        (intent-Keeps uuid serialize hash prefix policy now correlation_id key intent pms)
        (Keeps-trans announced published marked
          (control-Keeps uuid serialize hash prefix policy now correlation_id key ended announced)
          (attention-Keeps uuid serialize hash prefix policy now correlation_id
            state.needs_attention property_id room_id booking published))

  settle_room-Sound :
      (property_id room_id : ℕ) (key : String) (latest : Option OverrideRow)
      (state : RoomStateEvaluation) (intent : Option DesiredRoomIntent) (db : Database)
      → Sound db
      → Sound
          (settle_room uuid serialize hash prefix policy now correlation_id property_id room_id key
            latest state intent db).0
  unfolding settle_room keep_state
  settle_room-Sound property_id room_id key latest state intent db h =
      let before = latest_room_state room_id db in
      let text = hash (semantic_state state intent) in
      let ended =
        end_inactive_override uuid serialize hash prefix policy now correlation_id property_id
          room_id latest state db in
      let next = with_version (next_intent_version before) intent in
      let version = persisted_intent_version next before in
      let sound =
        end-Sound uuid serialize hash prefix policy now correlation_id property_id room_id latest
          state db h in
      let kept =
        keep_state uuid serialize hash prefix policy now correlation_id key ended.1 ended.0 in
      let stored =
        store_state uuid serialize hash prefix policy now correlation_id property_id room_id key
          state next version text ended.1 ended.0 in
      if-holds {A = Database × Recalculation} (λ r. Sound r.0) (same_hash before text) kept stored
        (λ _.
          Keeps-Sound ended.0 kept.0
            (control-Keeps uuid serialize hash prefix policy now correlation_id key ended.1 ended.0)
            sound)
        (λ _.
          Keeps-Sound ended.0 stored.0
            (store-Keeps property_id room_id key state next version text ended.1 ended.0) sound)

  module _ (daily : IsDaily policy) (bookings : List NormalizedBooking)
      (nights : All Overnight bookings) where
    entry-Sound :
        (property_id : ℕ) (entry : RegistryEntry) (db : Database)
        → str_eq entry.room.key "" ≡ false
        → Sound db
        → Succeeds
            (λ r. Sound r.0)
            (recalculate_entry uuid serialize hash prefix policy now correlation_id property_id
              entry bookings db)
    unfolding recalculate_entry evaluated latest_override_row
    entry-Sound property_id entry db k h =
        let latest = latest_override_row entry.row_id db in
        let override = override_of_latest latest now db.bookings in
        let state =
          evaluated uuid serialize hash prefix policy now correlation_id entry.room bookings
            override in
        let fit = latest-Fit latest now db.bookings (
          newest-Present IsCommandRow (λ r. r.starts_at) (λ r. r.id) _
            (select-All IsCommandRow (λ r. r.room_id == entry.row_id) db.overrides h.0)) in
        Succeeds-bind {A = Option DesiredRoomIntent} {B = Database × Recalculation} (λ _. Unit)
          (λ r. Sound r.0) (derive_room_intent state policy override correlation_id)
          (λ intent. ok (
            settle_room uuid serialize hash prefix policy now correlation_id property_id
              entry.row_id entry.room.key latest state intent db))
          (is_ok-Succeeds (derive_room_intent state policy override correlation_id) (
            derive_room_intent_total entry.room bookings
              (to_hotel policy.property.tzinfo (utc_time now)) policy override correlation_id k
              nights daily fit.0 fit.1))
          (λ intent _.
            settle_room-Sound property_id entry.row_id entry.room.key latest state intent db h)

    known-Sound :
        (property_id : ℕ) (entry : Option RegistryEntry) (has_row : Bool) (db : Database)
        → Present (λ e. str_eq e.room.key "" ≡ false) entry
        → Sound db
        → Succeeds
            (λ r. Sound r.0)
            (recalculate_known uuid serialize hash prefix policy now correlation_id property_id
              entry has_row bookings db)
    unfolding recalculate_known
    known-Sound property_id none b db k h = h
    known-Sound property_id (some e) false db k h = h
    known-Sound property_id (some e) true db k h = entry-Sound property_id e db k h

    each-Sound :
        (registry : RegistryRows) (ids : List ℕ) (db : Database)
        → Keyed registry
        → Sound db
        → Succeeds
            (λ r. Sound r.0)
            (recalculate_each uuid serialize hash prefix policy now correlation_id registry bookings
              ids db)
    unfolding recalculate_each recalculate_room
    each-Sound registry [] db k h = h
    each-Sound registry (id ∷ ids) db k h =
        let run =
          recalculate_each uuid serialize hash prefix policy now correlation_id registry bookings
            ids in
        let first =
          recalculate_room uuid serialize hash prefix policy now correlation_id registry id bookings
            db in
        Succeeds-bind {A = Database × Recalculation} {B = Database × Recalculation} (λ r. Sound r.0)
          (λ r. Sound r.0) first
          (λ first. run first.0 >>= λ others. ok (others.0, plus_counts first.1 others.1))
          (known-Sound registry.property_id (room_by_id registry id) _ db
            (last-Present (λ e. str_eq e.room.key "" ≡ false) (λ e. e.row_id == id) registry.entries
              k)
            h)
          (λ a s.
            Succeeds-bind {A = Database × Recalculation} {B = Database × Recalculation}
              (λ r. Sound r.0) (λ r. Sound r.0) (run a.0)
              (λ others. ok (others.0, plus_counts a.1 others.1)) (each-Sound registry ids a.0 k s)
              (λ _ t. t))

  pub recalculate_rooms-Sound :
      (registry : RegistryRows) (ids : List ℕ) (db : Database)
      → IsDaily policy
      → Keyed registry
      → Sound db
      → Succeeds
          (λ r. Sound r.0)
          (recalculate_rooms uuid serialize hash prefix policy now correlation_id registry ids db)
  unfolding recalculate_rooms load_normalized_bookings
  recalculate_rooms-Sound registry [] db daily k h = h
  recalculate_rooms-Sound registry (id ∷ ids) db daily k h =
      Succeeds-bind {A = List NormalizedBooking} {B = Database × Recalculation} (All Overnight)
        (λ r. Sound r.0) (load_normalized_bookings registry.property_id registry.property_key db) _
        (rows-Succeed registry.property_key db.assignments _
          (select-All IsBookingRow (λ r. r.property_id == registry.property_id) db.bookings h.1))
        (λ bookings nights.
          each-Sound daily bookings nights registry (sorted_by (λ n. n) (id ∷ ids)) db k h)
