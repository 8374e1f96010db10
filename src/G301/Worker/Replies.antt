-- ===== src/G301/Worker/Replies.antt =====
-- The replies of the worker to a version that it has seen, and how the versions advance.
use clock_ha_orchestrator.Prelude.{
  ℕ, ◌≡◌, ◌≢◌, refl, ap, subst, sym, ◌∙◌, inl, inr, true, Option, none, some, List, [], ◌∷◌, String,
  str_eq, eq_iff, ◌==◌, ==_iff, arith, Bool-cases, Option-cases,
}
use clock_ha_orchestrator.Prelude.Results.{Result, ok, err}
use clock_ha_orchestrator.Domain.Models.{DesiredRoomIntent, stable_payload}
use clock_ha_orchestrator.G301.Transport.{RegisterClient}
use clock_ha_orchestrator.G301.Worker.State.{
  AttemptPhase, ExecutionStatus, Message, IntentExecutionResult, IntentAttempt, RoomIntentState,
  Config, lookup, insert,
}
use clock_ha_orchestrator.G301.Worker.Execute.{Crash, Run, result_of}
use clock_ha_orchestrator.G301.Worker.Apply.{
  Worker, state_of, Order, older, newer, repeated, order_of, new_attempt, run_of, store, answer,
  repeat_attempt, check_attempt, by_order, for_slave, apply_intent,
}
use clock_ha_orchestrator.G301.Worker.Versions.{
  Settled, execute_intent-Settled, resume_verification-Settled,
}

str_eq-same : (k : String) → str_eq k k ≡ true
str_eq-same k = (eq_iff k k).1 refl

pub lookup-insert :
    {V : Type 0} (k : String) (v : V) (d : List (String × V)) → lookup k (insert k v d) ≡ some v
lookup-insert k v [] = rw (str_eq-same k) refl
lookup-insert k v ((j, w) ∷ d) = elim (Bool-cases (str_eq j k)) [
  | inl t ↦ rw (t, insert) (rw (str_eq-same k) refl)
  | inr f ↦ rw (f, insert) (rw f (lookup-insert k v d))
]

insert-lookup :
    {V : Type 0} (k : String) (v : V) (d : List (String × V))
    → lookup k d ≡ some v
    → insert k v d ≡ d
insert-lookup k v [] h = ground arith
insert-lookup k v ((j, w) ∷ d) h = elim (Bool-cases (str_eq j k)) [
  | inl t ↦ let e : j ≡ k = (eq_iff j k).0 t in let e' : some w ≡ some v = rw t at h in rw t cc
  | inr f ↦ rw f (ap (λ l. (j, w) ∷ l) (insert-lookup k v d (rw f at h)))
]

module _ {Bus : Type 0} (client : RegisterClient Bus) (c : Config)
    (intent : DesiredRoomIntent) where
  -- The worker holds the reply to an intent: its attempt is terminal, with the cached result.
  Answered : Worker → IntentExecutionResult → Type 0
  Answered w r =
      (s : RoomIntentState) × (a : IntentAttempt) × (cached : IntentExecutionResult) × (lookup
          intent.room_key w.intent_states
        ≡ some s)
      × (s.last_seen_version ≡ some intent.intent_version)
      × (s.current_attempt ≡ some a)
      × (a.version ≡ intent.intent_version)
      × (a.payload_fingerprint ≡ c.fingerprint (stable_payload intent))
      × (a.phase ≡ AttemptPhase.terminal)
      × (a.cached_result ≡ some cached)
      × (record cached { correlation_id = intent.correlation_id } ≡ r)

  Lasting : Result Crash IntentExecutionResult × Worker × Bus → Type 0
  Lasting (err x, w, bus) = Unit {0}
  Lasting (ok r, w, bus) = r.status ≡ ExecutionStatus.applied → Answered w r

  store-Lasting :
      (w : Worker) (run : Run Bus) (o : Result Crash IntentExecutionResult × Run Bus)
      → run.last_seen_version ≡ some intent.intent_version
      → run.attempt.version ≡ intent.intent_version
      → run.attempt.payload_fingerprint ≡ c.fingerprint (stable_payload intent)
      → Settled client c intent run o
      → Lasting (store client c w intent.room_key o)
  unfolding Lasting Answered
  store-Lasting w run (err x, end) seen version fp s = tt
  store-Lasting w run (ok r, end) seen version fp s = λ applied. (
    record {
      last_seen_version = end.last_seen_version;
      last_terminal_version = end.last_terminal_version;
      last_applied_version = end.last_applied_version;
      current_attempt = some end.attempt;
    },
    end.attempt,
    r,
    lookup-insert intent.room_key _ w.intent_states,
    s.0.2 ∙ seen,
    refl,
    s.0.0 ∙ version,
    s.0.1 ∙ fp,
    (s.1.1 applied).0,
    (s.1.1 applied).1,
    ap (λ i. record r { correlation_id = i }) (sym s.1.0),
  )

  terminal-Lasting :
      (slave : ℕ) (w : Worker) (s : RoomIntentState) (a : IntentAttempt) (bus : Bus)
      → s.last_seen_version ≡ some intent.intent_version
      → s.current_attempt ≡ some a
      → a.version ≡ intent.intent_version
      → a.payload_fingerprint ≡ c.fingerprint (stable_payload intent)
      → a.phase ≡ AttemptPhase.terminal
      → (o : Option IntentExecutionResult) → a.cached_result ≡ o
      → Lasting (repeat_attempt client c intent slave w s a bus AttemptPhase.terminal)
  unfolding Lasting Answered
  terminal-Lasting slave w s a bus seen at version fp phase none h = rw h tt
  terminal-Lasting slave w s a bus seen at version fp phase (some r) h = rw h (λ applied. (
    s,
    a,
    r,
    lookup-insert intent.room_key s w.intent_states,
    seen,
    at,
    version,
    fp,
    phase,
    h,
    refl,
  ))

  repeat-Lasting :
      (slave : ℕ) (w : Worker) (s : RoomIntentState) (a : IntentAttempt) (bus : Bus)
      → s.last_seen_version ≡ some intent.intent_version
      → s.current_attempt ≡ some a
      → a.version ≡ intent.intent_version
      → a.payload_fingerprint ≡ c.fingerprint (stable_payload intent)
      → (p : AttemptPhase) → a.phase ≡ p
      → Lasting (repeat_attempt client c intent slave w s a bus p)
  repeat-Lasting slave w s a bus seen at version fp AttemptPhase.terminal phase =
      terminal-Lasting slave w s a bus seen at version fp phase a.cached_result refl
  repeat-Lasting slave w s a bus seen at version fp AttemptPhase.retryable phase =
      store-Lasting w (run_of client c w s a bus) _ seen version fp
        (execute_intent-Settled client c intent slave (run_of client c w s a bus))
  repeat-Lasting slave w s a bus seen at version fp _ phase =
      store-Lasting w (run_of client c w s a bus) _ seen version fp
        (resume_verification-Settled client c intent slave (run_of client c w s a bus))

  unanswered :
      (w : Worker) (s : RoomIntentState) (bus : Bus) (status : ExecutionStatus) (m : Message)
      → status ≢ ExecutionStatus.applied
      → Lasting (answer client c w intent.room_key s (ok (result_of intent status m)) bus)
  unfolding Lasting
  unanswered w s bus status m differ = λ applied. absurd (differ applied)

  check-Lasting :
      (slave : ℕ) (w : Worker) (s : RoomIntentState) (bus : Bus) (o : Option IntentAttempt)
      → s.last_seen_version ≡ some intent.intent_version
      → s.current_attempt ≡ o
      → Lasting (check_attempt client c intent slave w s o bus)
  unfolding Lasting
  check-Lasting slave w s bus none seen at = tt
  check-Lasting slave w s bus (some a) seen at =
      elim (Bool-cases (a.version == intent.intent_version)) [
        | inr n ↦ rw n tt
        | inl y ↦
            elim (Bool-cases
              (str_eq a.payload_fingerprint (c.fingerprint (stable_payload intent)))) [
                | inr n ↦
                    rw (y, n)
                      (unanswered w s bus ExecutionStatus.rejected Message.different_payload
                        (λ k. ground arith))
                | inl f ↦
                    rw (y, f)
                      (repeat-Lasting slave w s a bus seen at (ground arith) ((eq_iff _ _).0 f)
                        a.phase refl)
              ]
      ]

  -- The run of a new version.
  abbrev pub begun : Worker → RoomIntentState → Bus → Run Bus
  begun w s bus =
      run_of client c w (record s { last_seen_version = some intent.intent_version })
        (new_attempt intent.intent_version (c.fingerprint (stable_payload intent))) bus

  order-Lasting :
      (slave : ℕ) (w : Worker) (bus : Bus) (s : RoomIntentState) (o : Order)
      → order_of s.last_seen_version intent.intent_version ≡ o
      → Lasting (by_order client c intent slave w s bus o)
  order-Lasting slave w bus s older h =
      unanswered w s bus ExecutionStatus.stale _ (λ k. ground arith)
  order-Lasting slave w bus s newer h =
      store-Lasting w (begun w s bus) _ refl refl refl
        (execute_intent-Settled client c intent slave (begun w s bus))
  order-Lasting slave w bus s repeated h =
      check-Lasting slave w s bus s.current_attempt (seen s.last_seen_version h) refl
    where
      seen :
          (v : Option ℕ)
          → order_of v intent.intent_version ≡ repeated
          → v ≡ some intent.intent_version
      seen none e = ground arith
      seen (some v) e = ap some (ground arith)

  slave-Lasting :
      (w : Worker) (bus : Bus) (slave : Option ℕ) → Lasting (for_slave client c intent w bus slave)
  unfolding Lasting
  slave-Lasting w bus none = λ k. ground arith
  slave-Lasting w bus (some slave) = order-Lasting slave w bus (state_of w intent.room_key) _ refl

  pub order_of-same : (v : ℕ) → order_of (some v) v ≡ repeated
  order_of-same v = ground arith

  state_of-known :
      (w : Worker) (s : RoomIntentState)
      → lookup intent.room_key w.intent_states ≡ some s
      → state_of w intent.room_key ≡ s
  state_of-known w s h = rw (h, state_of) refl

  cached-check :
      (w : Worker) (r : IntentExecutionResult) (bus : Bus) (slave : ℕ) (s : RoomIntentState)
      (a : IntentAttempt) (cached : IntentExecutionResult)
      → lookup intent.room_key w.intent_states ≡ some s
      → a.version ≡ intent.intent_version
      → a.payload_fingerprint ≡ c.fingerprint (stable_payload intent)
      → a.phase ≡ AttemptPhase.terminal
      → a.cached_result ≡ some cached
      → record cached { correlation_id = intent.correlation_id } ≡ r
      → check_attempt client c intent slave w s (some a) bus ≡ (ok r, w, bus)
  cached-check w r bus slave s a cached known version fp phase cache e =
      let same : (a.version == intent.intent_version) ≡ true = (==_iff _ _).1 version in
      let matches : str_eq a.payload_fingerprint (c.fingerprint (stable_payload intent)) ≡ true =
        (eq_iff _ _).1 fp in
      let kept : insert intent.room_key s w.intent_states ≡ w.intent_states =
        insert-lookup intent.room_key s w.intent_states known in
      rw (same, check_attempt)
        (rw (matches, phase, check_attempt)
          (rw (cache, check_attempt) (rw (e, kept, check_attempt) refl)))

  cached-reply :
      (w : Worker) (r : IntentExecutionResult) (bus : Bus) (slave : ℕ)
      → Answered w r
      → for_slave client c intent w bus (some slave) ≡ (ok r, w, bus)
  unfolding Answered
  cached-reply w r bus slave (s, a, cached, known, seen, at, version, fp, phase, cache, e) =
      let o : order_of s.last_seen_version intent.intent_version ≡ repeated =
        rw seen (order_of-same intent.intent_version) in
      rw (state_of-known w s known) (
        rw o (
          subst (λ t. check_attempt client c intent slave w s t bus ≡ (ok r, w, bus)) (sym at)
            (cached-check w r bus slave s a cached known version fp phase cache e)))

  -- An intent is applied once: when a call has replied that it is applied, a repeated call has the
  -- same reply, whatever became of the bus, and touches neither the bus nor the worker's state.
  pub apply_intent-applied_once :
      (w w' : Worker) (bus bus' later : Bus) (r : IntentExecutionResult)
      → apply_intent client c intent w bus ≡ (ok r, w', bus')
      → r.status ≡ ExecutionStatus.applied
      → apply_intent client c intent w' later ≡ (ok r, w', later)
  unfolding apply_intent Lasting
  apply_intent-applied_once w w' bus bus' later r h applied =
      elim (Option-cases (lookup intent.room_key c.room_slave_addresses)) [
        | inl n ↦
            let skip : for_slave client c intent w bus none ≡ (ok r, w', bus') =
              rw (n, apply_intent) at h in
            absurd (
              let first : (for_slave client c intent w bus none).0 ≡ ok r = ap (λ x. x.0) skip in
              ground arith)
        | inr (slave, known) ↦
            let first : Lasting (apply_intent client c intent w bus) = slave-Lasting w bus _ in
            let answered : Lasting (ok r, w', bus') = subst Lasting h first in
            rw (known, apply_intent) (cached-reply w' r later slave (answered applied))
      ]
