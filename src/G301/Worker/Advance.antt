-- ===== src/G301/Worker/Advance.antt =====
-- How an intent moves the worker's state on, which intents it refuses without a word on the bus,
-- and how long a failing slave is left alone.
use clock_ha_orchestrator.Prelude.{
  ℕ, ◌+◌, ◌-◌, ◌*◌, ◌^◌, min, ◌≡◌, ◌≢◌, ◌≤◌, ◌<◌, refl, subst, sym, inl, inr, true, false, Option,
  none, some, List, [], ◌∷◌, String, str_eq, eq_iff, ◌==◌, ==_iff, arith, Bool-cases, Option-cases,
}
use clock_ha_orchestrator.Prelude.Results.{Result, ok, err}
use clock_ha_orchestrator.Domain.Models.{DesiredRoomIntent, stable_payload}
use clock_ha_orchestrator.G301.Transport.{RegisterClient}
use clock_ha_orchestrator.G301.Worker.State.{
  AttemptPhase, ExecutionStatus, Message, IntentExecutionResult, SlaveFailureState, IntentAttempt,
  RoomIntentState, Config, lookup, insert, slave_failure_state, pop_failure, record_slave_failure,
}
use clock_ha_orchestrator.G301.Worker.Execute.{Crash, Run, result_of}
use clock_ha_orchestrator.G301.Worker.Apply.{
  Worker, state_of, Order, older, newer, repeated, order_of, run_of, store, repeat_attempt,
  check_attempt, by_order, apply_intent,
}
use clock_ha_orchestrator.G301.Worker.Versions.{
  Settled, execute_intent-Settled, resume_verification-Settled,
}
use clock_ha_orchestrator.G301.Worker.Replies.{lookup-insert, begun}

-- At least as far as another version, where no version comes first.
abbrev pub Reaches : Option ℕ → Option ℕ → Type 0
Reaches none v = Unit {0}
Reaches (some a) none = ⊥
Reaches (some a) (some b) = a ≤ b

Reaches-refl : (v : Option ℕ) → Reaches v v
Reaches-refl none = tt
Reaches-refl (some a) = ground arith

abbrev pub last_seen : Worker → String → Option ℕ
last_seen w key = (state_of w key).last_seen_version

str_eq-differ : (s t : String) → s ≢ t → str_eq s t ≡ false
str_eq-differ s t h = elim (Bool-cases (str_eq s t)) [
  | inl y ↦ absurd (h ((eq_iff s t).0 y))
  | inr n ↦ n
]

module _ {Bus : Type 0} (client : RegisterClient Bus) (c : Config)
    (intent : DesiredRoomIntent) where
  -- The room's version has not gone back.
  abbrev Forward : RoomIntentState → Result Crash IntentExecutionResult × Worker × Bus → Type 0
  Forward s reply = Reaches s.last_seen_version (last_seen reply.1 intent.room_key)

  answer-Forward :
      (w : Worker) (s : RoomIntentState)
      → Reaches s.last_seen_version (
          last_seen
            (record w { intent_states = insert intent.room_key s w.intent_states })
            intent.room_key)
  answer-Forward w s =
      rw (lookup-insert intent.room_key s w.intent_states, last_seen, state_of)
        (Reaches-refl s.last_seen_version)

  -- The room's state as a run leaves it.
  abbrev pub left_state : Run Bus → RoomIntentState
  left_state end = record {
    last_seen_version = end.last_seen_version;
    last_terminal_version = end.last_terminal_version;
    last_applied_version = end.last_applied_version;
    current_attempt = some end.attempt;
  }

  stored :
      (w : Worker) (s : RoomIntentState) (end : Run Bus)
      → Reaches s.last_seen_version end.last_seen_version
      → Reaches s.last_seen_version (
          last_seen
            (record {
              intent_states = insert intent.room_key (left_state end) w.intent_states;
              slave_failures = end.failures;
            })
            intent.room_key)
  stored w s end reach =
      rw (lookup-insert intent.room_key (left_state end) w.intent_states, last_seen, state_of) reach

  store-Forward :
      (w : Worker) (s : RoomIntentState) (run : Run Bus)
      (o : Result Crash IntentExecutionResult × Run Bus)
      → Reaches s.last_seen_version run.last_seen_version
      → Settled client c intent run o
      → Forward s (store client c w intent.room_key o)
  store-Forward w s run (err x, end) reach v =
      stored w s end (subst (Reaches s.last_seen_version) (sym v.2) reach)
  store-Forward w s run (ok r, end) reach v =
      stored w s end (subst (Reaches s.last_seen_version) (sym v.0.2) reach)

  phase-Forward :
      (slave : ℕ) (w : Worker) (s : RoomIntentState) (a : IntentAttempt) (bus : Bus)
      (p : AttemptPhase)
      → Forward s (repeat_attempt client c intent slave w s a bus p)
  phase-Forward slave w s a bus AttemptPhase.terminal = answer-Forward w s
  phase-Forward slave w s a bus AttemptPhase.retryable =
      store-Forward w s (run_of client c w s a bus) _ (Reaches-refl s.last_seen_version)
        (execute_intent-Settled client c intent slave (run_of client c w s a bus))
  phase-Forward slave w s a bus _ =
      store-Forward w s (run_of client c w s a bus) _ (Reaches-refl s.last_seen_version)
        (resume_verification-Settled client c intent slave (run_of client c w s a bus))

  check-Forward :
      (slave : ℕ) (w : Worker) (s : RoomIntentState) (bus : Bus) (o : Option IntentAttempt)
      → Forward s (check_attempt client c intent slave w s o bus)
  check-Forward slave w s bus none = answer-Forward w s
  check-Forward slave w s bus (some a) = elim (Bool-cases (a.version == intent.intent_version)) [
    | inr n ↦ rw n (answer-Forward w s)
    | inl y ↦
        elim (Bool-cases (str_eq a.payload_fingerprint (c.fingerprint (stable_payload intent)))) [
          | inr n ↦ rw (y, n) (answer-Forward w s)
          | inl f ↦ rw (y, f) (phase-Forward slave w s a bus a.phase)
        ]
  ]

  order-Forward :
      (slave : ℕ) (w : Worker) (s : RoomIntentState) (bus : Bus) (o : Order)
      → order_of s.last_seen_version intent.intent_version ≡ o
      → Forward s (by_order client c intent slave w s bus o)
  order-Forward slave w s bus older h = answer-Forward w s
  order-Forward slave w s bus newer h =
      store-Forward w s (begun client c intent w s bus) _ (reach s.last_seen_version h)
        (execute_intent-Settled client c intent slave (begun client c intent w s bus))
    where
      reach :
          (v : Option ℕ)
          → order_of v intent.intent_version ≡ newer
          → Reaches v (some intent.intent_version)
      reach none e = tt
      reach (some v) e = ground arith
  order-Forward slave w s bus repeated h = check-Forward slave w s bus s.current_attempt

  -- The version that a room has seen last never goes back, whatever an intent says and however its
  -- execution ends.
  pub apply_intent-last_seen :
      (w : Worker) (bus : Bus)
      → Reaches
          (last_seen w intent.room_key)
          (last_seen (apply_intent client c intent w bus).1 intent.room_key)
  unfolding apply_intent
  apply_intent-last_seen w bus =
      elim (Option-cases (lookup intent.room_key c.room_slave_addresses)) [
        | inl n ↦ rw (n, apply_intent) (Reaches-refl (last_seen w intent.room_key))
        | inr (slave, known) ↦
            rw (known, apply_intent) (order-Forward slave w (state_of w intent.room_key) bus _ refl)
      ]

  -- The intents that are refused at once, with the status of the answer.
  pub data Refused (w : Worker) : ExecutionStatus → Type 0 where
    no_slave :
        lookup intent.room_key c.room_slave_addresses ≡ none → Refused w ExecutionStatus.skipped
    superseded :
        (slave seen : ℕ)
        → lookup intent.room_key c.room_slave_addresses ≡ some slave
        → last_seen w intent.room_key ≡ some seen
        → intent.intent_version < seen
        → Refused w ExecutionStatus.stale
    altered :
        (slave : ℕ) (a : IntentAttempt)
        → lookup intent.room_key c.room_slave_addresses ≡ some slave
        → last_seen w intent.room_key ≡ some intent.intent_version
        → (state_of w intent.room_key).current_attempt ≡ some a
        → a.version ≡ intent.intent_version
        → a.payload_fingerprint ≢ c.fingerprint (stable_payload intent)
        → Refused w ExecutionStatus.rejected

  -- What the refusal of an intent looks like.
  abbrev pub Quiet :
      Worker → Bus → ExecutionStatus → Result Crash IntentExecutionResult × Worker × Bus → Type 0
  Quiet w bus status reply =
      (m : Message) × (reply.0 ≡ ok (result_of intent status m))
      × (reply.2 ≡ bus)
      × (reply.1.slave_failures ≡ w.slave_failures)
      × (state_of reply.1 intent.room_key ≡ state_of w intent.room_key)

  reinserted :
      (w : Worker)
      → state_of
          (record w {
            intent_states = insert intent.room_key (state_of w intent.room_key) w.intent_states;
          })
          intent.room_key
        ≡ state_of w intent.room_key
  reinserted w =
      rw (lookup-insert intent.room_key (state_of w intent.room_key) w.intent_states, state_of) refl

  order-same : (v : ℕ) → order_of (some v) v ≡ repeated
  order-same v = ground arith

  order-older :
      (seen : ℕ) → intent.intent_version < seen → order_of (some seen) intent.intent_version ≡ older
  order-older seen h = ground arith

  -- An intent for a room without a slave, one older than the version seen last, and one that changes
  -- the payload of that version are refused, and neither the bus, nor the failures of the slaves, nor
  -- the room's state changes.
  pub apply_intent-Quiet :
      (w : Worker) (bus : Bus) (status : ExecutionStatus)
      → Refused w status
      → Quiet w bus status (apply_intent client c intent w bus)
  unfolding apply_intent
  apply_intent-Quiet w bus _ (no_slave n) =
      rw (n, apply_intent) (Message.no_slave_address, refl, refl, refl, refl)
  apply_intent-Quiet w bus _ (superseded slave seen known s lt) =
      let o : order_of (last_seen w intent.room_key) intent.intent_version ≡ older =
        rw s (order-older seen lt) in
      rw (known, apply_intent) (rw o (_, refl, refl, refl, reinserted w))
  apply_intent-Quiet w bus _ (altered slave a known s at version fp) =
      let o : order_of (last_seen w intent.room_key) intent.intent_version ≡ repeated =
        rw s (order-same intent.intent_version) in
      let same : (a.version == intent.intent_version) ≡ true = (==_iff _ _).1 version in
      let other : str_eq a.payload_fingerprint (c.fingerprint (stable_payload intent)) ≡ false =
        str_eq-differ _ _ fp in
      rw (known, apply_intent)
        (rw o (
          subst
            (λ t.
              Quiet w bus ExecutionStatus.rejected
                (check_attempt client c intent slave w (state_of w intent.room_key) t bus))
            (sym at)
            (rw (same, other) (Message.different_payload, refl, refl, refl, reinserted w))))

pop_failure-other :
    (slave other : ℕ) (failures : List (ℕ × SlaveFailureState))
    → slave ≢ other
    → slave_failure_state other (pop_failure slave failures) ≡ slave_failure_state other failures
pop_failure-other slave other [] differ = refl
pop_failure-other slave other ((k, v) ∷ d) differ =
    let rest = pop_failure-other slave other d differ in ground arith

-- A failure leaves the slave alone for some time, but never longer than the longest delay, and only
-- that slave: the failures of another one are what they were.
pub record_slave_failure_bounds :
    (c : Config) (now slave other : ℕ) (failures : List (ℕ × SlaveFailureState))
    → slave ≢ other
    → ((t : ℕ) × ((slave_failure_state slave
            (record_slave_failure c now slave failures)).retry_after
          ≡ some t)
        × (now ≤ t)
        × (t ≤ now + c.slave_retry_max))
      × (slave_failure_state other (record_slave_failure c now slave failures)
          ≡ slave_failure_state other failures)
unfolding record_slave_failure
record_slave_failure_bounds c now slave other failures differ =
    let rest = pop_failure-other slave other failures differ in
    (
      (
        now
            + min
                (c.slave_retry_base
                  * 2 ^ min ((slave_failure_state slave failures).consecutive_failures + 1 - 1) 16)
                c.slave_retry_max,
        ground arith,
        ground arith,
        ground arith,
      ),
      ground arith,
    )
