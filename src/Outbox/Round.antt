-- ===== src/Outbox/Round.antt =====
-- One round of the outbox worker: claim, publish, record (`OutboxStore` and `OutboxPublisher` of
-- app/outbox/service.py, as app/runtime.py calls them one after another).
use clock_ha_orchestrator.Prelude.{
  ℕ, ◌≡◌, refl, inl, inr, Bool, true, false, not, Option, none, some, List, [], ◌∷◌, map, ◌==◌,
  String, if◌then◌else◌, any, All, select, length, arith, Bool-cases,
}
use clock_ha_orchestrator.Prelude.Results.{Result, ◌>>=◌}
use clock_ha_orchestrator.Prelude.Membership.{All-map, All-mono}
use clock_ha_orchestrator.Outbox.Store.{
  OutboxEvent, PendingOutboxMessage, OutboxPublishResult, OutboxRetryPolicy, is_publishing,
  is_stale, release_row, release_stale_publishing, claimable, claim_row, pending_message,
  claim_pending, record_result, apply_result, record_results,
}
use clock_ha_orchestrator.Outbox.Publisher.{
  Receipt, wait_for_publish_ack, result_of_lem, publish_one, publish_pending,
}

-- The rows that are still being published are among those that the results are about.
abbrev Covered : List (OutboxPublishResult × ℕ) → OutboxEvent → Type 0
Covered results r = is_publishing r.status ≡ true → any (λ x. x.0.message_id == r.id) results ≡ true

module _ (policy : OutboxRetryPolicy) (now : ℕ) where
  record_result-settled :
      (res : OutboxPublishResult) (draw : ℕ) (r : OutboxEvent)
      → is_publishing (record_result policy res draw now r).status ≡ false
  unfolding record_result
  record_result-settled res draw r = ground arith

  one-Covered :
      (res : OutboxPublishResult) (draw : ℕ) (rest : List (OutboxPublishResult × ℕ))
      (r : OutboxEvent)
      → Covered ((res, draw) ∷ rest) r
      → Covered rest (if r.id == res.message_id then record_result policy res draw now r else r)
  one-Covered res draw rest r c = elim (Bool-cases (r.id == res.message_id)) [
    | inl t ↦ rw t (λ h. let f = record_result-settled res draw r in cc)
    | inr f ↦ rw f (λ h. ground (arith, c h))
  ]

  -- Once the results are recorded, no row that they are about is being published.
  record_results-settled :
      (results : List (OutboxPublishResult × ℕ)) (rows : List OutboxEvent)
      → All (Covered results) rows
      → All (λ r. is_publishing r.status ≡ false) (record_results policy results now rows)
  unfolding record_results apply_result
  record_results-settled [] rows h =
      All-mono _ _ rows
        (λ r c. elim (Bool-cases (is_publishing r.status)) [
          | inl t ↦ let k = c t in cc
          | inr f ↦ f
        ])
        h
  record_results-settled ((res, draw) ∷ rest) rows h =
      record_results-settled rest (apply_result policy now (res, draw) rows)
        (All-map (Covered rest) _ rows (All-mono _ _ rows (one-Covered res draw rest) h))

-- The settings that a round reads, and the times at which it looks at the clock.
pub record RoundSettings : Type 0 where
  pub retry_policy : OutboxRetryPolicy
  pub outbox_stale_publish : ℕ
  pub worker_id : String
  pub outbox_batch_size : ℕ

pub record RoundTimes : Type 0 where
  pub released_at : ℕ
  pub claimed_at : ℕ
  pub published_at : ℕ
  pub recorded_at : ℕ

-- The MQTT client: whether it is connected, and how a publish ends.
pub record Client : Type 0 where
  pub connected : Bool
  pub publish : PendingOutboxMessage → Result String (Option Receipt)

-- The round with a client: the count of messages, and the table. `draw` is the jitter of a result.
pub round :
    RoundSettings
    → Client
    → (ℕ → Bool)
    → RoundTimes
    → (OutboxPublishResult → ℕ)
    → List OutboxEvent
    → ℕ × List OutboxEvent
round s client locked t draw rows =
    let released = (release_stale_publishing t.released_at s.outbox_stale_publish rows).1 in
    if not client.connected
    then (0, released)
    else (let (messages, claimed) =
          claim_pending locked s.worker_id t.claimed_at s.outbox_batch_size released in
        (
          length messages,
          record_results s.retry_policy
              (map (λ r. (r, draw r)) (publish_pending client.publish t.published_at messages))
              t.recorded_at claimed,
        ))

pub run_outbox_once :
    RoundSettings
    → Option Client
    → (ℕ → Bool)
    → RoundTimes
    → (OutboxPublishResult → ℕ)
    → List OutboxEvent
    → ℕ × List OutboxEvent
unfolding round
run_outbox_once s none locked t draw rows = (0, rows)
run_outbox_once s (some client) locked t draw rows = round s client locked t draw rows

-- No row is being published.
abbrev pub Free : List OutboxEvent → Type 0
Free rows = All (λ r. is_publishing r.status ≡ false) rows

module _ (publish : PendingOutboxMessage → Result String (Option Receipt)) (now : ℕ)
    (draw : OutboxPublishResult → ℕ) where
  publish_one-id : (m : PendingOutboxMessage) → (publish_one publish now m).message_id ≡ m.id
  unfolding publish_one
  publish_one-id m = (result_of_lem now m (publish m >>= wait_for_publish_ack)).0

  results_about :
      (id : ℕ) (chosen : List OutboxEvent)
      → any (λ c. c.id == id) chosen ≡ true
      → any
          (λ (x : OutboxPublishResult × ℕ). x.0.message_id == id)
          (map (λ r. (r, draw r)) (publish_pending publish now (map pending_message chosen)))
        ≡ true
  unfolding publish_pending
  results_about id [] h = h
  results_about id (c ∷ cs) h =
      ground (arith, publish_one-id (pending_message c), results_about id cs)

-- The rows of a table without claims, after a claim.
claim-Covered :
    (results : List (OutboxPublishResult × ℕ)) (chosen : List OutboxEvent) (w : String) (now : ℕ)
    (r : OutboxEvent)
    → (any (λ c. c.id == r.id) chosen ≡ true
        → any (λ (x : OutboxPublishResult × ℕ). x.0.message_id == r.id) results ≡ true)
    → is_publishing r.status ≡ false
    → Covered results (if any (λ c. c.id == r.id) chosen then claim_row w now r else r)
claim-Covered results chosen w now r about free =
    elim (Bool-cases (any (λ c. c.id == r.id) chosen)) [
      | inl t ↦ rw t (λ h. about t)
      | inr f ↦ rw f (λ h. cc)
    ]

release-Free :
    (now older_than : ℕ) (rows : List OutboxEvent)
    → Free rows
    → Free (release_stale_publishing now older_than rows).1
unfolding release_stale_publishing
release-Free now older_than rows free = All-map _ _ rows (All-mono _ _ rows one free)
  where
    one :
        (r : OutboxEvent)
        → is_publishing r.status ≡ false
        → is_publishing
            (if any (λ c. c.id == r.id) (select (is_stale now older_than) rows)
              then release_row now r
              else r).status
          ≡ false
    one r f = elim (Bool-cases (any (λ c. c.id == r.id) (select (is_stale now older_than) rows))) [
      | inl t ↦ rw t refl
      | inr e ↦ rw e f
    ]

-- A round settles every message that it claims: if no row is being published before it, whatever
-- the client does, none is afterwards.
pub run_outbox_once-Free :
    (s : RoundSettings) (client : Option Client) (locked : ℕ → Bool) (t : RoundTimes)
    (draw : OutboxPublishResult → ℕ) (rows : List OutboxEvent)
    → Free rows
    → Free (run_outbox_once s client locked t draw rows).1
unfolding run_outbox_once round claim_pending
run_outbox_once-Free s none locked t draw rows free = free
run_outbox_once-Free s (some client) locked t draw rows free = elim (Bool-cases client.connected) [
  | inr off ↦ simp off released_free
  | inl on ↦ simp on (
      record_results-settled s.retry_policy t.recorded_at results _ (
        All-map _ _ released (
          All-mono _ _ released
            (λ r f.
              claim-Covered results chosen s.worker_id t.claimed_at r
                (results_about client.publish t.published_at draw r.id chosen) f)
            released_free)))
]
  where
    released : List OutboxEvent
    released = (release_stale_publishing t.released_at s.outbox_stale_publish rows).1

    chosen : List OutboxEvent
    chosen = claimable locked t.claimed_at s.outbox_batch_size released

    results : List (OutboxPublishResult × ℕ)
    results =
        map (λ r. (r, draw r))
          (publish_pending client.publish t.published_at (map pending_message chosen))

    released_free : Free released
    released_free = release-Free t.released_at s.outbox_stale_publish rows free
