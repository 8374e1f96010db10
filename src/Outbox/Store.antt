-- ===== src/Outbox/Store.antt =====
-- app/outbox/service.py, `OutboxStore`, over the table `outbox_events` of app/persistence/models.py.
-- The table is the list of its rows; a SELECT filters, sorts and cuts it. Times are instants in
-- microseconds, ids are numbers, and a draw of `random.uniform` comes with the result it is for.
pub mod Claims
pub mod Lifecycle
pub mod Retry
pub mod Recovery
use clock_ha_orchestrator.Prelude.{
  ℕ, zero, suc, ◌+◌, ◌-◌, ◌*◌, ◌^◌, ◌≤◌, min, Bool, true, false, not, ◌&&◌, ◌||◌, Option, none,
  some, List, [], ◌∷◌, map, String, ltb, leb, ◌==◌, if◌then◌else◌, any, length, select, sorted_by,
  take,
}

-- `OutboxEvent.status`
pub data Status : Type 0 where
  pending retrying publishing published dead_letter : Status

pub record OutboxEvent : Type 0 where
  pub id : ℕ
  pub topic : String
  pub payload : String
  pub qos : ℕ
  pub retain : Bool
  pub status : Status
  pub attempts : ℕ
  pub next_attempt_at : Option ℕ
  pub created_at : ℕ
  pub published_at : Option ℕ
  pub claimed_at : Option ℕ
  pub claimed_by : Option String
  pub last_error : Option String

pub record PendingOutboxMessage : Type 0 where
  pub id : ℕ
  pub topic : String
  pub payload : String
  pub qos : ℕ
  pub retain : Bool
  pub attempts : ℕ

pub record OutboxPublishResult : Type 0 where
  pub message_id : ℕ
  pub published : Bool
  pub published_at : Option ℕ
  pub error : Option String

pub record OutboxRetryPolicy : Type 0 where
  pub max_attempts : ℕ
  pub base_delay_seconds : ℕ
  pub max_delay_seconds : ℕ
  pub jitter_seconds : ℕ

abbrev pub second : ℕ
second = 1000000

-- `status IN ('pending', 'retrying')`
abbrev pub is_waiting : Status → Bool
is_waiting Status.pending = true
is_waiting Status.retrying = true
is_waiting _ = false

abbrev pub is_publishing : Status → Bool
is_publishing Status.publishing = true
is_publishing _ = false

abbrev pub is_dead : Status → Bool
is_dead Status.dead_letter = true
is_dead _ = false

-- `next_attempt_at IS NULL OR next_attempt_at <= now`
abbrev pub is_due : ℕ → Option ℕ → Bool
is_due now none = true
is_due now (some t) = leb t now

unfoldable pub is_claimable : ℕ → OutboxEvent → Bool
is_claimable now row = is_waiting row.status && is_due now row.next_attempt_at

-- `FOR UPDATE SKIP LOCKED`: the rows that other transactions hold are passed over.
abbrev pub claimable : (ℕ → Bool) → ℕ → ℕ → List OutboxEvent → List OutboxEvent
claimable locked now limit rows = take limit (
    sorted_by (λ r. r.created_at)
      (sorted_by (λ r. r.id) (select (λ r. is_claimable now r && not (locked r.id)) rows)))

abbrev pub claim_row : String → ℕ → OutboxEvent → OutboxEvent
claim_row worker_id now row = record row {
  status = Status.publishing;
  claimed_at = some now;
  claimed_by = some worker_id;
}

-- The rows of a query, as the session holds them: an assignment to one changes the row of its id.
abbrev pub update_rows :
    (OutboxEvent → OutboxEvent) → List OutboxEvent → List OutboxEvent → List OutboxEvent
update_rows change chosen rows =
    map (λ r. if any (λ c. c.id == r.id) chosen then change r else r) rows

abbrev pub pending_message : OutboxEvent → PendingOutboxMessage
pending_message row = record {
  id = row.id;
  topic = row.topic;
  payload = row.payload;
  qos = row.qos;
  retain = row.retain;
  attempts = row.attempts;
}

unfoldable pub claim_pending :
    (ℕ → Bool) → String → ℕ → ℕ → List OutboxEvent → List PendingOutboxMessage × List OutboxEvent
claim_pending locked worker_id now limit rows = (
  map pending_message (claimable locked now limit rows),
  update_rows (claim_row worker_id now) (claimable locked now limit rows) rows,
)

-- In microseconds; `draw` is what `random.uniform(0, jitter_seconds)` returns.
unfoldable pub retry_delay : OutboxRetryPolicy → ℕ → ℕ → ℕ
retry_delay policy draw attempts =
    min (policy.base_delay_seconds * 2 ^ (attempts - 1)) policy.max_delay_seconds * second
    + (if ltb 0 policy.jitter_seconds then draw else 0)

-- `result.published_at or now`
abbrev pub published_time : Option ℕ → ℕ → ℕ
published_time none now = now
published_time (some t) now = t

unfoldable pub record_success : OutboxPublishResult → ℕ → OutboxEvent → OutboxEvent
record_success result now row = record row {
  claimed_at = none;
  claimed_by = none;
  status = Status.published;
  published_at = some (published_time result.published_at now);
  last_error = none;
  next_attempt_at = none;
}

unfoldable pub record_failure :
    OutboxRetryPolicy → OutboxPublishResult → ℕ → ℕ → OutboxEvent → OutboxEvent
record_failure policy result draw now row =
    let counted = record row {
      claimed_at = none;
      claimed_by = none;
      attempts = row.attempts + 1;
      last_error = result.error;
    } in
    if leb policy.max_attempts (row.attempts + 1)
    then record counted { status = Status.dead_letter; next_attempt_at = none }
    else record counted {
      status = Status.retrying;
      next_attempt_at = some (now + retry_delay policy draw (row.attempts + 1));
    }

unfoldable pub record_result :
    OutboxRetryPolicy → OutboxPublishResult → ℕ → ℕ → OutboxEvent → OutboxEvent
unfolding record_success record_failure
record_result policy result draw now row =
    if result.published
    then record_success result now row
    else record_failure policy result draw now row

-- `session.get(OutboxEvent, id)` finds the row of that primary key, or none.
unfoldable pub apply_result :
    OutboxRetryPolicy → ℕ → OutboxPublishResult × ℕ → List OutboxEvent → List OutboxEvent
apply_result policy now (result, draw) rows =
    map (λ r. if r.id == result.message_id then record_result policy result draw now r else r) rows

unfoldable pub record_results :
    OutboxRetryPolicy → List (OutboxPublishResult × ℕ) → ℕ → List OutboxEvent → List OutboxEvent
record_results policy [] now rows = rows
record_results policy (r ∷ rs) now rows =
    record_results policy rs now (apply_result policy now r rows)

-- `claimed_at < now - older_than`, where NULL compares as no.
abbrev pub claimed_before : Option ℕ → ℕ → Bool
claimed_before none t = false
claimed_before (some c) t = ltb c t

unfoldable pub is_stale : ℕ → ℕ → OutboxEvent → Bool
is_stale now older_than row =
    is_publishing row.status && claimed_before row.claimed_at (now - older_than)

abbrev pub release_row : ℕ → OutboxEvent → OutboxEvent
release_row now row = record row {
  status = Status.retrying;
  claimed_at = none;
  claimed_by = none;
  next_attempt_at = some now;
}

unfoldable pub release_stale_publishing : ℕ → ℕ → List OutboxEvent → ℕ × List OutboxEvent
release_stale_publishing now older_than rows = (
  length (select (is_stale now older_than) rows),
  update_rows (release_row now) (select (is_stale now older_than) rows) rows,
)

abbrev pub requeue_row : ℕ → OutboxEvent → OutboxEvent
requeue_row now row = record row {
  status = Status.retrying;
  next_attempt_at = some now;
  last_error = none;
  claimed_at = none;
  claimed_by = none;
}

unfoldable pub retry_dead_letters : ℕ → List OutboxEvent → ℕ × List OutboxEvent
retry_dead_letters now rows = (
  length (select (λ r. is_dead r.status) rows),
  update_rows (requeue_row now) (select (λ r. is_dead r.status) rows) rows,
)
