-- ===== src/Clock/Rooms/Versions.antt =====
-- The versions of a room's states, and what a second evaluation with the same outcome does.
use clock_ha_orchestrator.Prelude.{
  ℕ, ◌+◌, ◌≡◌, refl, ap, ◌∙◌, ◌⊎◌, Bool, true, false, Option, none, some, ◌∷◌, String, is_some,
  if-holds, inl, inr, arith,
}
use clock_ha_orchestrator.Domain.Enums.{is_automatic, is_manual_override}
use clock_ha_orchestrator.Domain.Models.{HotelPolicy, DesiredRoomIntent, RoomStateEvaluation}
use clock_ha_orchestrator.Policy.Control.Rows.{latest_room_state}
use clock_ha_orchestrator.Persistence.Rows.{OverrideRow, RoomStateRow, Payload, pms_state}
use clock_ha_orchestrator.Persistence.Session.{Database, add_room_state}
use clock_ha_orchestrator.Clock.Rooms.{
  pms_state_payload, booking_row_id, SemanticState, semantic_state, same_hash, next_intent_version,
  persisted_intent_version, with_version, Recalculation,
}
use clock_ha_orchestrator.Clock.Rooms.Step.{
  state_row, publish, room_pms_state, count, end_inactive_override, publish_control, publish_intent,
  audit_attention, keep_state, store_state, settle_room,
}

-- The version of the latest state, and zero before the first.
abbrev pub version_of : Option RoomStateRow → ℕ
version_of none = 0
version_of (some s) = s.intent_version

persisted_lem :
    (intent : Option DesiredRoomIntent) (latest : Option RoomStateRow)
    → persisted_intent_version (with_version (next_intent_version latest) intent) latest
      ≡ version_of latest + count (is_some intent)
persisted_lem none none = refl
persisted_lem none (some s) = ground arith
persisted_lem (some i) none = refl
persisted_lem (some i) (some s) = refl

module _ (uuid : ℕ → ℕ) (serialize : Payload → String) (hash : SemanticState → String)
    (prefix : String) (policy : HotelPolicy) (now correlation_id property_id room_id : ℕ)
    (room_key : String) where
  abbrev ended : Option OverrideRow → RoomStateEvaluation → Database → Database × Bool
  ended latest state db =
      end_inactive_override uuid serialize hash prefix policy now correlation_id property_id room_id
        latest state db

  unfoldable pub settle :
      Option OverrideRow
      → RoomStateEvaluation
      → Option DesiredRoomIntent
      → Database
      → Database × Recalculation
  unfolding settle_room
  settle latest state intent db =
      settle_room uuid serialize hash prefix policy now correlation_id property_id room_id room_key
        latest state intent db

  ended-room_states :
      (latest : Option OverrideRow) (state : RoomStateEvaluation) (db : Database)
      → (ended latest state db).0.room_states ≡ db.room_states
  ended-room_states none state db = refl
  ended-room_states (some row) state db =
      if-holds {A = Database × Bool} (λ r. r.0.room_states ≡ db.room_states)
        (is_automatic row.control_mode) _ _ (λ _. refl)
        (λ _.
          if-holds {A = Database × Bool} (λ r. r.0.room_states ≡ db.room_states)
            (is_manual_override state.phase) _ _ (λ _. refl) (λ _. refl))

  control-room_states :
      (ends : Bool) (db : Database)
      → (publish_control uuid serialize hash prefix policy now correlation_id room_key ends
          db).room_states
        ≡ db.room_states
  unfolding publish_control
  control-room_states true db = refl
  control-room_states false db = refl

  intent-room_states :
      (intent : Option DesiredRoomIntent) (db : Database)
      → (publish_intent uuid serialize hash prefix policy now correlation_id room_key intent
          db).room_states
        ≡ db.room_states
  intent-room_states none db = refl
  intent-room_states (some i) db = refl

  attention-room_states :
      (flag : Bool) (booking : Option ℕ) (db : Database)
      → (audit_attention uuid serialize hash prefix policy now correlation_id flag property_id
          room_id booking db).room_states
        ≡ db.room_states
  attention-room_states true booking db = refl
  attention-room_states false booking db = refl

  -- The latest state of the room has what is hashed.
  abbrev pub Unchanged :
      RoomStateEvaluation → Option DesiredRoomIntent → Database → Database → Type 0
  Unchanged state intent before after =
      (same_hash (latest_room_state room_id before) (hash (semantic_state state intent)) ≡ true)
      × (after.room_states ≡ before.room_states)

  -- The latest state does not have what is hashed, and the room has a new state, whose version is
  -- the one after the latest if there is an intent.
  abbrev pub Advanced :
      RoomStateEvaluation → Option DesiredRoomIntent → Database → Database → Type 0
  Advanced state intent before after =
      (same_hash (latest_room_state room_id before) (hash (semantic_state state intent)) ≡ false)
      × (row : RoomStateRow) × (after.room_states ≡ row ∷ before.room_states)
      × (row.room_id ≡ room_id)
      × (row.created_at ≡ now)
      × (row.automation_phase ≡ state.phase)
      × (row.payload_hash ≡ hash (semantic_state state intent))
      × (row.intent_version
          ≡ version_of (latest_room_state room_id before) + count (is_some intent))

  abbrev new_state : RoomStateEvaluation → ℕ → String → Database → RoomStateRow
  new_state state version text db =
      state_row uuid serialize hash prefix policy now correlation_id room_id state
        (booking_row_id property_id state.booking db.bookings) version text (uuid db.drawn)

  store-room_states :
      (state : RoomStateEvaluation) (intent : Option DesiredRoomIntent) (version : ℕ)
      (text : String) (ends : Bool) (db : Database)
      → (store_state uuid serialize hash prefix policy now correlation_id property_id room_id
          room_key state intent version text ends db).0.room_states
        ≡ new_state state version text db ∷ db.room_states
  unfolding store_state
  store-room_states state intent version text ends db =
      let booking = booking_row_id property_id state.booking db.bookings in
      let stored =
        add_room_state uuid
          (state_row uuid serialize hash prefix policy now correlation_id room_id state booking
            version text)
          db in
      let pms =
        publish uuid serialize hash prefix policy now correlation_id
          (room_pms_state prefix room_key) (pms_state (pms_state_payload state correlation_id))
          stored in
      let announced =
        publish_intent uuid serialize hash prefix policy now correlation_id room_key intent pms in
      let published =
        publish_control uuid serialize hash prefix policy now correlation_id room_key ends
          announced in
      attention-room_states state.needs_attention booking published
      ∙ control-room_states ends announced
      ∙ intent-room_states intent pms

  store-Advanced :
      (state : RoomStateEvaluation) (intent : Option DesiredRoomIntent) (ends : Bool)
      (before db : Database)
      → same_hash (latest_room_state room_id before) (hash (semantic_state state intent)) ≡ false
      → db.room_states ≡ before.room_states
      → Advanced state intent before
          (store_state uuid serialize hash prefix policy now correlation_id property_id room_id
            room_key state
            (with_version (next_intent_version (latest_room_state room_id before)) intent)
            (persisted_intent_version
              (with_version (next_intent_version (latest_room_state room_id before)) intent)
              (latest_room_state room_id before))
            (hash (semantic_state state intent))
            ends
            db).0
  store-Advanced state intent ends before db d e =
      let latest = latest_room_state room_id before in
      let next = with_version (next_intent_version latest) intent in
      let version = persisted_intent_version next latest in
      let text = hash (semantic_state state intent) in
      (
        d,
        new_state state version text db,
        store-room_states state next version text ends db
            ∙ ap (λ l. new_state state version text db ∷ l) e,
        refl,
        refl,
        refl,
        refl,
        persisted_lem intent latest,
      )

  -- Settling a room either leaves the states as they were, and then the latest has the hash of the
  -- new evaluation, or adds one, and then the latest has another hash or there is none; the new state
  -- has the hash of the evaluation, and its version is one more than the latest's if it has an intent,
  -- and the latest's if not.
  pub settle_room-version :
      (latest : Option OverrideRow) (state : RoomStateEvaluation)
      (intent : Option DesiredRoomIntent) (db : Database)
      → Unchanged state intent db (settle latest state intent db).0
        ⊎ Advanced state intent db (settle latest state intent db).0
  unfolding settle settle_room keep_state
  settle_room-version latest state intent db =
      if-holds {A = Database × Recalculation}
        (λ r. Unchanged state intent db r.0 ⊎ Advanced state intent db r.0)
        (same_hash (latest_room_state room_id db) (hash (semantic_state state intent))) _ _
        (λ e. inl (
          e,
          control-room_states (ended latest state db).1 (ended latest state db).0
              ∙ ended-room_states latest state db,
        ))
        (λ d. inr (
          store-Advanced state intent (ended latest state db).1 db (ended latest state db).0 d
            (ended-room_states latest state db)))
