-- ===== src/Tests/Rows.antt =====
-- A small outbox.
use clock_ha_orchestrator.Prelude.{
  ℕ, ◌≡◌, ◌≤◌, refl, Bool, true, false, Option, none, some, List, [], ◌∷◌, map, String, ◌==◌,
  length, any, if◌then◌else◌, All, Any, arith,
}
use clock_ha_orchestrator.Prelude.Results.{Result, ok, err}
use clock_ha_orchestrator.Outbox.Store.{
  OutboxEvent, PendingOutboxMessage, OutboxPublishResult, OutboxRetryPolicy, Status, is_waiting,
  is_due, pending_message, claim_pending, retry_delay,
}
use clock_ha_orchestrator.Outbox.Store.Claims.{claim_pending_exclusive, claim_pending_sound}
use clock_ha_orchestrator.Outbox.Store.Lifecycle.{
  Call, claims, records, releases, requeues, run, IsConsistent, run-IsConsistent, letter,
  run-letter,
}
use clock_ha_orchestrator.Outbox.Store.Retry.{Failure, fail_all, retry_delay_mono, fail_all-status}
use clock_ha_orchestrator.Outbox.Publisher.{Receipt}
use clock_ha_orchestrator.Outbox.Round.{
  RoundSettings, RoundTimes, run_outbox_once, Free, run_outbox_once-Free,
}

abbrev message : ℕ → OutboxEvent
message id = record {
  id = id;
  topic = "clock/room/r101/intent";
  payload = "payload";
  qos = 1;
  retain = true;
  status = Status.pending;
  attempts = 0;
  next_attempt_at = none;
  created_at = id;
  published_at = none;
  claimed_at = none;
  claimed_by = none;
  last_error = none;
}

abbrev waiting : List OutboxEvent
waiting = message 1 ∷ message 2 ∷ message 3 ∷ []

abbrev unlocked : ℕ → Bool
unlocked id = false

abbrev policy : OutboxRetryPolicy
policy = record {
  max_attempts = 3;
  base_delay_seconds = 5;
  max_delay_seconds = 300;
  jitter_seconds = 2;
}

abbrev failure : OutboxPublishResult
failure = record { message_id = 1; published = false; published_at = none; error = some "OSError" }

abbrev claimed_long_ago : OutboxEvent
claimed_long_ago = record (message 1) {
  status = Status.publishing;
  claimed_at = some 10;
  claimed_by = some "w";
}

abbrev dead : OutboxEvent
dead = record (message 2) { status = Status.dead_letter; attempts = 3 }

claim_pending_exclusive_example :
    let (earlier, after) = claim_pending unlocked "w" 100 2 waiting in
    let (later, _) = claim_pending unlocked "v" 100 2 after in
    All (λ m. any (λ k. k.id == m.id) earlier ≡ false) later
claim_pending_exclusive_example =
    claim_pending_exclusive unlocked unlocked "w" "v" 100 100 2 2 waiting

claim_pending_sound_example :
    let messages = (claim_pending unlocked "w" 100 2 waiting).0 in
    (length messages ≤ 2)
    × All
        (λ m.
          Any
            (λ r.
              (pending_message r ≡ m)
              × (is_waiting r.status ≡ true)
              × (is_due 100 r.next_attempt_at ≡ true)
              × (unlocked r.id ≡ false))
            waiting)
        messages
claim_pending_sound_example = claim_pending_sound unlocked "w" 100 2 waiting

waiting-IsConsistent : All (IsConsistent policy) waiting
waiting-IsConsistent = (consistent 1, (consistent 2, (consistent 3, tt)))
  where
    consistent : (id : ℕ) → IsConsistent policy (message id)
    consistent id = record {
      claimed = refl;
      owned = refl;
      delivered = λ e. ground arith;
      exhausted = λ e. ground arith;
    }

abbrev calls : List Call
calls =
    claims unlocked "w" 100 2
    ∷ records ((failure, 1) ∷ []) 200
    ∷ releases 300 50
    ∷ requeues 400
    ∷ []

run-IsConsistent_example : All (IsConsistent policy) (run policy waiting calls)
run-IsConsistent_example = run-IsConsistent policy waiting calls waiting-IsConsistent

run-letter_example : map letter (run policy waiting calls) ≡ map letter waiting
run-letter_example = run-letter policy waiting calls

retry_delay_mono_example : retry_delay policy 0 2 ≤ retry_delay policy 0 5
retry_delay_mono_example = retry_delay_mono policy 2 5 (omega arith)

abbrev failed_once : Failure
failed_once = (failure, 0, 100)

fail_all-status_example :
    (fail_all policy (failed_once ∷ failed_once ∷ failed_once ∷ []) (message 1)).status
    ≡ Status.dead_letter
fail_all-status_example =
    fail_all-status policy failed_once (failed_once ∷ failed_once ∷ []) (message 1)

abbrev settings : RoundSettings
settings = record {
  retry_policy = policy;
  outbox_stale_publish = 60;
  worker_id = "w";
  outbox_batch_size = 2;
}

abbrev times : RoundTimes
times = record { released_at = 100; claimed_at = 101; published_at = 102; recorded_at = 103 }

-- A client that refuses every message but the first.
abbrev refusing : PendingOutboxMessage → Result String (Option Receipt)
refusing m =
    if m.id == 1
    then ok (some (record { rc = some 0; wait = some (ok tt); is_published = some true }))
    else err "TimeoutError"

run_outbox_once-Free_example :
    Free
      (run_outbox_once settings
        (some (record { connected = true; publish = refusing }))
        unlocked
        times
        (λ r. 0)
        waiting).1
run_outbox_once-Free_example =
    run_outbox_once-Free settings (some (record { connected = true; publish = refusing })) unlocked
      times (λ r. 0) waiting (refl, (refl, (refl, tt)))
