-- ===== src/Outbox/Store/Lifecycle.antt =====
-- The life of a row: what every operation of the store keeps, over any sequence of them.
use clock_ha_orchestrator.Prelude.{
  ℕ, ◌≡◌, ◌≤◌, refl, ap, ◌∙◌, inl, inr, Bool, true, none, List, [], ◌∷◌, map, String, ◌==◌,
  if◌then◌else◌, is_some, any, All, arith, Bool-cases,
}
use clock_ha_orchestrator.Prelude.Membership.{All-map, All-mono}
use clock_ha_orchestrator.Outbox.Store.{
  OutboxEvent, OutboxPublishResult, OutboxRetryPolicy, Status, is_publishing, claim_row,
  update_rows, claim_pending, record_result, apply_result, record_results, release_row,
  release_stale_publishing, requeue_row, retry_dead_letters,
}

-- A call of the store, with the time at which it is made.
pub data Call : Type 0 where
  claims : (ℕ → Bool) → String → ℕ → ℕ → Call
  records : List (OutboxPublishResult × ℕ) → ℕ → Call
  releases : ℕ → ℕ → Call
  requeues : ℕ → Call

module _ (policy : OutboxRetryPolicy) where
  unfoldable pub step : List OutboxEvent → Call → List OutboxEvent
  step rows (claims locked worker now limit) = (claim_pending locked worker now limit rows).1
  step rows (records results now) = record_results policy results now rows
  step rows (releases now older_than) = (release_stale_publishing now older_than rows).1
  step rows (requeues now) = (retry_dead_letters now rows).1

  unfoldable pub run : List OutboxEvent → List Call → List OutboxEvent
  run rows [] = rows
  run rows (c ∷ cs) = run (step rows c) cs

-- A row is claimed exactly while it is being published; a published row has its time, a dead letter
-- has used up its attempts, and neither is scheduled.
pub record IsConsistent (policy : OutboxRetryPolicy) (r : OutboxEvent) : Type 0 where
  pub claimed : is_some r.claimed_at ≡ is_publishing r.status
  pub owned : is_some r.claimed_by ≡ is_publishing r.status
  pub delivered :
      r.status ≡ Status.published → (is_some r.published_at ≡ true) × (r.next_attempt_at ≡ none)
  pub exhausted :
      r.status ≡ Status.dead_letter
      → (policy.max_attempts ≤ r.attempts) × (r.next_attempt_at ≡ none)

module _ (policy : OutboxRetryPolicy) where
  record_result-IsConsistent :
      (res : OutboxPublishResult) (draw now : ℕ) (r : OutboxEvent)
      → IsConsistent policy r
      → IsConsistent policy (record_result policy res draw now r)
  unfolding record_result
  record_result-IsConsistent res draw now r c = ground arith

  update_rows-IsConsistent :
      (change : OutboxEvent → OutboxEvent) (chosen rows : List OutboxEvent)
      → ((r : OutboxEvent) → IsConsistent policy r → IsConsistent policy (change r))
      → All (IsConsistent policy) rows
      → All (IsConsistent policy) (update_rows change chosen rows)
  update_rows-IsConsistent change chosen rows keep h =
      All-map (IsConsistent policy) _ rows (All-mono _ _ rows (λ r c. one r c) h)
    where
      one :
          (r : OutboxEvent)
          → IsConsistent policy r
          → IsConsistent policy (if any (λ c. c.id == r.id) chosen then change r else r)
      one r c = elim (Bool-cases (any (λ c. c.id == r.id) chosen)) [
        | inl t ↦ rw t (keep r c)
        | inr f ↦ rw f c
      ]

  apply_result-IsConsistent :
      (now : ℕ) (res : OutboxPublishResult × ℕ) (rows : List OutboxEvent)
      → All (IsConsistent policy) rows
      → All (IsConsistent policy) (apply_result policy now res rows)
  unfolding apply_result
  apply_result-IsConsistent now (res, draw) rows h =
      All-map (IsConsistent policy) _ rows (All-mono _ _ rows (λ r c. one r c) h)
    where
      one :
          (r : OutboxEvent)
          → IsConsistent policy r
          → IsConsistent policy
              (if r.id == res.message_id then record_result policy res draw now r else r)
      one r c = elim (Bool-cases (r.id == res.message_id)) [
        | inl t ↦ rw t (record_result-IsConsistent res draw now r c)
        | inr f ↦ rw f c
      ]

  record_results-IsConsistent :
      (results : List (OutboxPublishResult × ℕ)) (now : ℕ) (rows : List OutboxEvent)
      → All (IsConsistent policy) rows
      → All (IsConsistent policy) (record_results policy results now rows)
  unfolding record_results
  record_results-IsConsistent [] now rows h = h
  record_results-IsConsistent (r ∷ rs) now rows h =
      record_results-IsConsistent rs now (apply_result policy now r rows)
        (apply_result-IsConsistent now r rows h)

  step-IsConsistent :
      (rows : List OutboxEvent) (c : Call)
      → All (IsConsistent policy) rows
      → All (IsConsistent policy) (step policy rows c)
  unfolding step claim_pending release_stale_publishing retry_dead_letters
  step-IsConsistent rows (claims locked worker now limit) h =
      update_rows-IsConsistent (claim_row worker now) _ rows (λ r c. ground arith) h
  step-IsConsistent rows (records results now) h = record_results-IsConsistent results now rows h
  step-IsConsistent rows (releases now older_than) h =
      update_rows-IsConsistent (release_row now) _ rows (λ r c. ground arith) h
  step-IsConsistent rows (requeues now) h =
      update_rows-IsConsistent (requeue_row now) _ rows (λ r c. ground arith) h

  -- Whatever calls are made, in any order, with any results and at any times: every row of a table
  -- of consistent rows stays consistent, that is, claimed exactly while it is being published, with
  -- its time once it is published, and out of attempts once it is a dead letter.
  pub run-IsConsistent :
      (rows : List OutboxEvent) (cs : List Call)
      → All (IsConsistent policy) rows
      → All (IsConsistent policy) (run policy rows cs)
  unfolding run
  run-IsConsistent rows [] h = h
  run-IsConsistent rows (c ∷ cs) h =
      run-IsConsistent (step policy rows c) cs (step-IsConsistent rows c h)

-- What identifies a message and what it says.
pub record Letter : Type 0 where
  pub id : ℕ
  pub topic : String
  pub payload : String
  pub qos : ℕ
  pub retain : Bool
  pub created_at : ℕ

abbrev pub letter : OutboxEvent → Letter
letter r = record {
  id = r.id;
  topic = r.topic;
  payload = r.payload;
  qos = r.qos;
  retain = r.retain;
  created_at = r.created_at;
}

map-letter :
    (change : OutboxEvent → OutboxEvent) (test : OutboxEvent → Bool) (rows : List OutboxEvent)
    → ((r : OutboxEvent) → letter (change r) ≡ letter r)
    → map letter (map (λ r. if test r then change r else r) rows) ≡ map letter rows
map-letter change test [] h = refl
map-letter change test (r ∷ rs) h =
    rw (map-letter change test rs h) (ap (λ x. x ∷ map letter rs) one)
  where
    one : letter (if test r then change r else r) ≡ letter r
    one = elim (Bool-cases (test r)) [ inl t ↦ rw t (h r) | inr f ↦ rw f ]

module _ (policy : OutboxRetryPolicy) where
  record_result-letter :
      (res : OutboxPublishResult) (draw now : ℕ) (r : OutboxEvent)
      → letter (record_result policy res draw now r) ≡ letter r
  unfolding record_result
  record_result-letter res draw now r = ground arith

  record_results-letter :
      (results : List (OutboxPublishResult × ℕ)) (now : ℕ) (rows : List OutboxEvent)
      → map letter (record_results policy results now rows) ≡ map letter rows
  unfolding record_results apply_result
  record_results-letter [] now rows = refl
  record_results-letter ((res, draw) ∷ rs) now rows =
      record_results-letter rs now (apply_result policy now (res, draw) rows)
      ∙ map-letter (record_result policy res draw now) (λ r. r.id == res.message_id) rows
          (record_result-letter res draw now)

  step-letter :
      (rows : List OutboxEvent) (c : Call) → map letter (step policy rows c) ≡ map letter rows
  unfolding step claim_pending release_stale_publishing retry_dead_letters
  step-letter rows (claims locked worker now limit) = map-letter _ _ rows (λ r. refl)
  step-letter rows (records results now) = record_results-letter results now rows
  step-letter rows (releases now older_than) = map-letter _ _ rows (λ r. refl)
  step-letter rows (requeues now) = map-letter _ _ rows (λ r. refl)

  -- No sequence of calls loses, adds, reorders or rewrites a message.
  pub run-letter :
      (rows : List OutboxEvent) (cs : List Call) → map letter (run policy rows cs) ≡ map letter rows
  unfolding run
  run-letter rows [] = refl
  run-letter rows (c ∷ cs) = run-letter (step policy rows c) cs ∙ step-letter rows c
