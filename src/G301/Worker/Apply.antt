-- ===== src/G301/Worker/Apply.antt =====
-- app/g301_adapter/worker.py: `apply_intent`, which sorts an intent by its version, and the
-- constructor's check of the settings and choice of the rooms.
use clock_ha_orchestrator.Prelude.{
  ℕ, not, ◌&&◌, ◌||◌, Option, none, some, List, [], ◌∷◌, String, str_eq, ltb, leb, ◌==◌,
  if◌then◌else◌,
}
use clock_ha_orchestrator.Prelude.Results.{Result, ok, err}
use clock_ha_orchestrator.Domain.Models.{
  DesiredRoomIntent, stable_payload, Room, Entrance, RoomRegistry,
}
use clock_ha_orchestrator.G301.Transport.{RegisterClient}
use clock_ha_orchestrator.G301.Worker.State.{
  AttemptPhase, ExecutionStatus, Message, IntentExecutionResult, SlaveFailureState, IntentAttempt,
  RoomIntentState, Config, lookup, insert,
}
use clock_ha_orchestrator.G301.Worker.Execute.{
  Crash, uncaught_exception, inconsistent_state, Run, result_of, execute_intent,
  resume_verification,
}

-- `{room.key: room.g301.slave_address for room in rooms if ...}`; a later room of one key wins.
unfoldable pub room_slave_addresses : String → List Room → List (String × ℕ)
room_slave_addresses entrance_key [] = []
room_slave_addresses entrance_key (r ∷ rs) = elim r.g301 [
  | none ↦ room_slave_addresses entrance_key rs
  | some a ↦
      (let rest = room_slave_addresses entrance_key rs in
        if r.enabled && str_eq r.entrance_key entrance_key then (r.key, a) ∷ rest else rest)
]

pub data SetupError : Type 0 where
  no_attempts no_readbacks bad_retry_delays unknown_entrance disabled_entrance : SetupError

abbrev pub find_entrance : String → List Entrance → Option Entrance
find_entrance k [] = none
find_entrance k (e ∷ es) = if str_eq e.key k then some e else find_entrance k es

-- The checks of the constructor on values that can fail here: the delays are natural numbers, so
-- that none is negative, and the timeout belongs to the client.
unfoldable pub make_config : RoomRegistry → String → Config → Result SetupError Config
make_config registry entrance_key c =
    if ltb c.max_operation_attempts 1
    then err no_attempts
    else if ltb c.readback_attempts 1
    then err no_readbacks
    else if leb c.slave_retry_base 0 || ltb c.slave_retry_max c.slave_retry_base
    then err bad_retry_delays
    else elim (find_entrance entrance_key registry.entrances) [
      | none ↦ err unknown_entrance
      | some e ↦
          if e.enabled
          then ok
              (record c { room_slave_addresses = room_slave_addresses entrance_key registry.rooms })
          else err disabled_entrance
    ]

-- The worker between two intents.
pub record Worker : Type 0 where
  pub intent_states : List (String × RoomIntentState)
  pub slave_failures : List (ℕ × SlaveFailureState)

abbrev pub new_state : RoomIntentState
new_state = record {
  last_seen_version = none;
  last_terminal_version = none;
  last_applied_version = none;
  current_attempt = none;
}

-- `_intent_states.setdefault(room_key, _RoomIntentState())`
abbrev pub state_of : Worker → String → RoomIntentState
state_of w key = elim (lookup key w.intent_states) [ none ↦ new_state | some s ↦ s ]

abbrev pub new_attempt : ℕ → String → IntentAttempt
new_attempt version fingerprint = record {
  version = version;
  payload_fingerprint = fingerprint;
  phase = AttemptPhase.retryable;
  plan = none;
  completed_writes = [];
  cached_result = none;
}

-- How a version compares with the last one seen.
pub data Order : Type 0 where
  older newer repeated : Order

abbrev pub order_of : Option ℕ → ℕ → Order
order_of none version = newer
order_of (some seen) version =
    if ltb version seen then older else if ltb seen version then newer else repeated

abbrev pub seen_version : Option ℕ → ℕ
seen_version none = 0
seen_version (some v) = v

module _ {Bus : Type 0} (client : RegisterClient Bus) (c : Config) where
  abbrev pub Reply : Type 0
  Reply = Result Crash IntentExecutionResult × Worker × Bus

  abbrev pub run_of : Worker → RoomIntentState → IntentAttempt → Bus → Run Bus
  run_of w state attempt bus = record {
    last_seen_version = state.last_seen_version;
    last_terminal_version = state.last_terminal_version;
    last_applied_version = state.last_applied_version;
    attempt = attempt;
    failures = w.slave_failures;
    bus = bus;
  }

  -- The worker with the room's state as a run left it.
  abbrev pub store : Worker → String → Result Crash IntentExecutionResult × Run Bus → Reply
  store w key (outcome, run) = (
    outcome,
    record {
      intent_states =
          insert key
            (record {
              last_seen_version = run.last_seen_version;
              last_terminal_version = run.last_terminal_version;
              last_applied_version = run.last_applied_version;
              current_attempt = some run.attempt;
            })
            w.intent_states;
      slave_failures = run.failures;
    },
    run.bus,
  )

  -- A return before anything is executed; the room's state is there from now on.
  abbrev pub answer :
      Worker → String → RoomIntentState → Result Crash IntentExecutionResult → Bus → Reply
  answer w key state outcome bus =
      (outcome, record w { intent_states = insert key state w.intent_states }, bus)

  -- A repeated version, by the phase of its attempt.
  abbrev pub repeat_attempt :
      DesiredRoomIntent → ℕ → Worker → RoomIntentState → IntentAttempt → Bus → AttemptPhase → Reply
  repeat_attempt intent slave w state attempt bus AttemptPhase.terminal =
      answer w intent.room_key state
        (elim attempt.cached_result [
          | none ↦ err uncaught_exception
          | some cached ↦ ok (record cached { correlation_id = intent.correlation_id })
        ])
        bus
  repeat_attempt intent slave w state attempt bus AttemptPhase.retryable =
      store w intent.room_key (execute_intent client c intent slave (run_of w state attempt bus))
  repeat_attempt intent slave w state attempt bus _ =
      store w intent.room_key
        (resume_verification client c intent slave (run_of w state attempt bus))

  -- A repeated version, once there is an attempt.
  abbrev pub check_attempt :
      DesiredRoomIntent → ℕ → Worker → RoomIntentState → Option IntentAttempt → Bus → Reply
  check_attempt intent slave w state none bus =
      answer w intent.room_key state (err inconsistent_state) bus
  check_attempt intent slave w state (some attempt) bus =
      if not (attempt.version == intent.intent_version)
      then answer w intent.room_key state (err inconsistent_state) bus
      else if not (str_eq attempt.payload_fingerprint (c.fingerprint (stable_payload intent)))
      then answer w intent.room_key state
          (ok (result_of intent ExecutionStatus.rejected Message.different_payload)) bus
      else repeat_attempt intent slave w state attempt bus attempt.phase

  abbrev pub by_order : DesiredRoomIntent → ℕ → Worker → RoomIntentState → Bus → Order → Reply
  by_order intent slave w state bus older =
      answer w intent.room_key state
        (ok (
          result_of intent ExecutionStatus.stale
            (Message.older_than (seen_version state.last_seen_version))))
        bus
  by_order intent slave w state bus newer = store w intent.room_key (
      execute_intent client c intent slave (
        run_of w (record state { last_seen_version = some intent.intent_version })
          (new_attempt intent.intent_version (c.fingerprint (stable_payload intent))) bus))
  by_order intent slave w state bus repeated =
      check_attempt intent slave w state state.current_attempt bus

  abbrev pub for_slave : DesiredRoomIntent → Worker → Bus → Option ℕ → Reply
  for_slave intent w bus none =
      (ok (result_of intent ExecutionStatus.skipped Message.no_slave_address), w, bus)
  for_slave intent w bus (some slave) =
      by_order intent slave w (state_of w intent.room_key) bus
        (order_of (state_of w intent.room_key).last_seen_version intent.intent_version)

  unfoldable pub apply_intent : DesiredRoomIntent → Worker → Bus → Reply
  apply_intent intent w bus = for_slave intent w bus (lookup intent.room_key c.room_slave_addresses)
