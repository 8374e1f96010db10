-- ===== src/Clock/Rooms/Idempotence.antt =====
-- A second evaluation of a room with the same outcome does nothing.
use clock_ha_orchestrator.Prelude.{
  ℕ, ◌<◌, ◌≡◌, refl, sym, ap, subst, ◌∙◌, ◌⊎◌, inl, inr, Bool, true, false, not, ◌&&◌, Option, none,
  some, String, if◌then◌else◌, eq_iff, ◌==◌, ==_iff, select, All, arith,
}
use clock_ha_orchestrator.Domain.Enums.{is_automatic, is_manual_override}
use clock_ha_orchestrator.Domain.Models.{HotelPolicy, DesiredRoomIntent, RoomStateEvaluation}
use clock_ha_orchestrator.Policy.Control.Rows.{latest_room_state}
use clock_ha_orchestrator.Persistence.Rows.{OverrideRow, RoomStateRow, Payload}
use clock_ha_orchestrator.Persistence.Session.{Database, newest}
use clock_ha_orchestrator.Persistence.Session.Queries.{newest_head}
use clock_ha_orchestrator.Clock.Rooms.{
  SemanticState, semantic_state, same_hash, with_version, next_intent_version,
  persisted_intent_version, nothing,
}
use clock_ha_orchestrator.Clock.Rooms.Step.{
  store_state, end_inactive_override, keep_state, publish_control, settle_room,
}
use clock_ha_orchestrator.Clock.Rooms.Versions.{settle, Unchanged, Advanced, settle_room-version}

-- Whether the scheduler returns the room to automatic.
abbrev pub has_ended : Option OverrideRow → RoomStateEvaluation → Bool
has_ended none state = false
has_ended (some row) state =
    not (is_automatic row.control_mode) && not (is_manual_override state.phase)

same_hash_refl :
    (o : Option RoomStateRow) (row : RoomStateRow) (h : String)
    → o ≡ some row
    → row.payload_hash ≡ h
    → same_hash o h ≡ true
same_hash_refl o row h e f = ap (λ x. same_hash x h) e ∙ (eq_iff row.payload_hash h).1 f

pick {ℓ} :
    {A : Type ℓ} (a b : Bool) (q r : A)
    → (not a && not b) ≡ false
    → (if a then q else if b then q else r) ≡ q
pick true b q r h = refl
pick false true q r h = refl
pick false false q r h = ground arith

module _ (uuid : ℕ → ℕ) (serialize : Payload → String) (hash : SemanticState → String)
    (prefix : String) (policy : HotelPolicy) (now correlation_id property_id room_id : ℕ)
    (room_key : String) (state : RoomStateEvaluation) (intent : Option DesiredRoomIntent) where
  quiet_end :
      (latest : Option OverrideRow) (db : Database)
      → has_ended latest state ≡ false
      → end_inactive_override uuid serialize hash prefix policy now correlation_id property_id
          room_id latest state db
        ≡ (db, false)
  quiet_end none db h = refl
  quiet_end (some row) db h =
      pick (is_automatic row.control_mode) (is_manual_override state.phase) (db, false) _ h

  settle_room-kept :
      (latest : Option OverrideRow) (db : Database)
      → same_hash (latest_room_state room_id db) (hash (semantic_state state intent)) ≡ true
      → has_ended latest state ≡ false
      → settle uuid serialize hash prefix policy now correlation_id property_id room_id room_key
          latest state intent db
        ≡ (db, nothing)
  unfolding settle settle_room keep_state publish_control
  settle_room-kept latest db e h =
      let before = latest_room_state room_id db in
      let text = hash (semantic_state state intent) in
      let ended =
        end_inactive_override uuid serialize hash prefix policy now correlation_id property_id
          room_id latest state db in
      let next = with_version (next_intent_version before) intent in
      ap
        (λ b.
          if b
          then keep_state uuid serialize hash prefix policy now correlation_id room_key ended.1
              ended.0
          else store_state uuid serialize hash prefix policy now correlation_id property_id room_id
              room_key state next (persisted_intent_version next before) text ended.1 ended.0)
        e
      ∙ ap (λ p. keep_state uuid serialize hash prefix policy now correlation_id room_key p.1 p.0)
          (quiet_end latest db h)

  hash_settled :
      (before after : Database)
      → All (λ s. s.created_at < now) before.room_states
      → Unchanged uuid serialize hash prefix policy now correlation_id property_id room_id room_key
          state intent before after
        ⊎ Advanced uuid serialize hash prefix policy now correlation_id property_id room_id room_key
            state intent before after
      → same_hash (latest_room_state room_id after) (hash (semantic_state state intent)) ≡ true
  unfolding latest_room_state
  hash_settled before after o (inl (e, k)) =
      subst
        (λ l.
          same_hash (newest (λ r. r.created_at) (λ r. r.id) (select (λ r. r.room_id == room_id) l))
            (hash (semantic_state state intent))
          ≡ true)
        (sym k) e
  hash_settled before after o (inr (d, row, k, r, t, p, h, v)) =
      same_hash_refl _ row _
        (ap (λ l. newest (λ r. r.created_at) (λ r. r.id) (select (λ r. r.room_id == room_id) l)) k
          ∙ newest_head (λ r. r.created_at) (λ r. r.id) (λ r. r.room_id == room_id) row
              before.room_states ((==_iff row.room_id room_id).1 r)
              (subst (λ n. All (λ s. s.created_at < n) before.room_states) (sym t) o))
        h

module _ (uuid : ℕ → ℕ) (serialize : Payload → String) (hash : SemanticState → String)
    (prefix : String) (policy : HotelPolicy) (now correlation_id property_id room_id : ℕ)
    (room_key : String) (state : RoomStateEvaluation) (intent : Option DesiredRoomIntent) where
  -- Settling a room a second time with the same evaluation and intent, at whatever time, does nothing
  -- and counts nothing, if every state before the first was older and no override is left to end.
  pub settle_room-again :
      (latest again : Option OverrideRow) (db : Database) (later other : ℕ)
      → All (λ s. s.created_at < now) db.room_states
      → has_ended again state ≡ false
      → settle uuid serialize hash prefix policy later other property_id room_id room_key again
          state intent
          (settle uuid serialize hash prefix policy now correlation_id property_id room_id room_key
            latest state intent db).0
        ≡ (
          (settle uuid serialize hash prefix policy now correlation_id property_id room_id room_key
              latest state intent db).0,
          nothing,
        )
  settle_room-again latest again db later other o h =
      let after =
        (settle uuid serialize hash prefix policy now correlation_id property_id room_id room_key
          latest state intent db).0 in
      settle_room-kept uuid serialize hash prefix policy later other property_id room_id room_key
        state intent again after
        (hash_settled uuid serialize hash prefix policy now correlation_id property_id room_id
          room_key state intent db after o
          (settle_room-version uuid serialize hash prefix policy now correlation_id property_id
            room_id room_key latest state intent db))
        h
