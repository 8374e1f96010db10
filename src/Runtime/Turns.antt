-- ===== src/Runtime/Turns.antt =====
-- No order of turns leaves an error but the engine's refusal of rows.
use clock_ha_orchestrator.Prelude.{
  ℕ, ◌≡◌, refl, sym, subst, Bool, true, false, Option, none, some, List, [], ◌∷◌, String, str_eq,
  All, ◌⊎◌, inl, inr, Bool-cases,
}
use clock_ha_orchestrator.Prelude.Results.{Result, ok, err}
use clock_ha_orchestrator.Domain.Temperature.{Float}
use clock_ha_orchestrator.Domain.Models.{RoomRegistry, HotelPolicy}
use clock_ha_orchestrator.Domain.StateMachine.Windows.{IsDaily}
use clock_ha_orchestrator.Policy.Control.Service.{
  CommandProcessingResult, command_rows, apply_mqtt_command,
}
use clock_ha_orchestrator.Policy.Control.Service.Transactions.{
  apply_mqtt_command-IsCommandRow, apply_mqtt_command-refused, apply_mqtt_command-bookings,
}
use clock_ha_orchestrator.Persistence.Rows.{Payload}
use clock_ha_orchestrator.Persistence.Session.{Database, StoreError, not_stored, stored}
use clock_ha_orchestrator.Clock.Rooms.{SemanticState}
use clock_ha_orchestrator.Clock.Rooms.Soundness.{IsBookingRow, Sound}
use clock_ha_orchestrator.Clock.DbSync.{SyncError, PersistedSyncResult}
use clock_ha_orchestrator.Clock.DbSync.Laws.{IsSynced}
use clock_ha_orchestrator.Clock.DbSync.Runs.{
  evaluate_all_rooms-Sound, evaluate_room_keys-Sound, apply_sync_result-Sound,
}
use clock_ha_orchestrator.Runtime.{
  TurnError, store_failed, after_store, after_command, Turn, command, policy_tick, synchronised,
  commit, evaluate_accepted, handle_control_message, run_policy_once, persist_sync, take_turn,
  run_turns,
}

-- What was read for a synchronisation are bookings of the property, of a night at least, and without
-- an unnoticed unknown status; any command and any tick will do.
abbrev pub IsFair : String → Turn → Type 0
IsFair key (command _ _ _ _ _) = Unit
IsFair key (policy_tick _ _) = Unit
IsFair key (synchronised result _) = All (IsSynced key) result.bookings

-- A turn ends without an error, or with the engine's refusal of some rows.
abbrev pub Unfailing : (Database → Database → Bool) → Option TurnError → Type 0
Unfailing takes e =
    (e ≡ none)
    ⊎ ((e ≡ some (store_failed not_stored)) × (a : Database) × (b : Database) × (takes a b ≡ false))

abbrev pub Quietly : (Database → Database → Bool) → Database × Option TurnError → Type 0
Quietly takes r = Unfailing takes r.1 × Sound r.0

-- The end of a transaction, by the engine's answer.
store-Quietly :
    (takes : Database → Database → Bool) (db : Database) (r : Database × PersistedSyncResult)
    → Sound db
    → Sound r.0
    → Quietly takes (after_store db (stored takes db r))
store-Quietly takes db r s k = elim (Bool-cases (takes db r.0)) [
  | inl y ↦ rw y (inl refl, k)
  | inr n ↦ rw n (inr (refl, db, r.0, n), s)
]

commit-Quietly :
    (takes : Database → Database → Bool) (db : Database)
    (m : Result SyncError (Database × PersistedSyncResult))
    → Sound db
    → (r : Database × PersistedSyncResult) × (m ≡ ok r) × Sound r.0
    → Quietly takes (commit takes db m)
commit-Quietly takes db m k (r, e, s) =
    subst (λ m. Quietly takes (commit takes db m)) (sym e) (store-Quietly takes db r k s)

module _ (takes : Database → Database → Bool) (uuid : ℕ → ℕ) (parse_float : List ℕ → Option Float)
    (serialize : Payload → String) (hash : SemanticState → String) (prefix : String)
    (registry : RoomRegistry) (policy : HotelPolicy) (cursor_source : String)
    (daily : IsDaily policy) (keyed : All (λ r. str_eq r.key "" ≡ false) registry.rooms) where
  accepted-Quietly :
      (now : ℕ) (r : Database × CommandProcessingResult) (accepted : Bool) (key : Option String)
      → Sound r.0
      → Quietly takes (
          evaluate_accepted takes uuid parse_float serialize hash prefix registry policy
            cursor_source now r accepted key)
  unfolding evaluate_accepted
  accepted-Quietly now r true (some key) s = commit-Quietly takes r.0 _ s (
      evaluate_room_keys-Sound uuid serialize hash prefix registry policy cursor_source daily keyed
        (key ∷ []) now r.1.correlation_id r.0 s)
  accepted-Quietly now r true none s = (inl refl, s)
  accepted-Quietly now r false key s = (inl refl, s)

  command-Quietly :
      (room_key field : String) (payload : Option (List ℕ)) (now id : ℕ) (db : Database)
      (o : Result StoreError (Database × CommandProcessingResult))
      → apply_mqtt_command takes uuid parse_float serialize prefix registry policy room_key field
          payload now id db
        ≡ o
      → Sound db
      → Quietly takes (
          after_command takes uuid parse_float serialize hash prefix registry policy cursor_source
            now db o)
  unfolding after_command
  command-Quietly room_key field payload now id db (ok r) e s =
      accepted-Quietly now r r.1.accepted r.1.room_key (
        (apply_mqtt_command-IsCommandRow uuid parse_float serialize prefix registry policy room_key
            field payload now id takes db r e s.0).0,
        subst (All IsBookingRow)
            (sym (
              apply_mqtt_command-bookings uuid parse_float serialize prefix registry policy room_key
                field payload now id takes db r e))
            s.1,
      )
  command-Quietly room_key field payload now id db (err not_stored) e s = (
    inr (
      refl,
      db,
      (command_rows uuid parse_float serialize prefix registry policy room_key field payload now id
          db).0,
      apply_mqtt_command-refused uuid parse_float serialize prefix registry policy room_key field
          payload now id takes db e,
    ),
    s,
  )

  take_turn-Quietly :
      (t : Turn) (db : Database)
      → IsFair registry.property_key t
      → Sound db
      → Quietly takes (
          take_turn takes uuid parse_float serialize hash prefix registry policy cursor_source t db)
  unfolding take_turn handle_control_message run_policy_once persist_sync
  take_turn-Quietly (command room_key field payload now id) db f s =
      command-Quietly room_key field payload now id db _ refl s
  take_turn-Quietly (policy_tick now id) db f s = commit-Quietly takes db _ s (
      evaluate_all_rooms-Sound uuid serialize hash prefix registry policy cursor_source daily keyed
        now id db s)
  take_turn-Quietly (synchronised result id) db f s = commit-Quietly takes db _ s (
      apply_sync_result-Sound uuid serialize hash prefix registry policy cursor_source daily keyed
        result id db f s)

  -- In any sequence of commands, ticks and synchronisations, the only error that a turn can leave is
  -- that of a change of the rows that the database engine refuses, and the rows are sound after the
  -- sequence, if the rooms have keys, the times of the policy lie in a day, what was read are bookings
  -- of the property of at least a night and without an unnoticed unknown status, and the rows are
  -- sound before it.
  pub run_turns-Sound :
      (ts : List Turn) (db : Database)
      → All (IsFair registry.property_key) ts
      → Sound db
      → All
          (Unfailing takes)
          (run_turns takes uuid parse_float serialize hash prefix registry policy cursor_source ts
            db).1
        × Sound
            (run_turns takes uuid parse_float serialize hash prefix registry policy cursor_source ts
              db).0
  unfolding run_turns
  run_turns-Sound [] db f s = (tt, s)
  run_turns-Sound (t ∷ ts) db f s =
      let turn = take_turn-Quietly t db f.0 s in
      let rest =
        run_turns-Sound ts
          (take_turn takes uuid parse_float serialize hash prefix registry policy cursor_source t
            db).0
          f.1 turn.1 in
      ((turn.0, rest.0), rest.1)
