-- ===== src/Outbox/Publisher.antt =====
-- app/outbox/service.py, `OutboxPublisher`. What the MQTT client does with a message is a parameter:
-- `publish` raises, by the name of the exception's class, or returns the receipt, if any.
use clock_ha_orchestrator.Prelude.{
  ℕ, ◌≡◌, refl, Bool, true, false, not, Option, none, some, List, map, String, ◌==◌,
}
use clock_ha_orchestrator.Prelude.Results.{Result, ok, err, ◌>>=◌, ◌>>◌, raise_if, is_ok}
use clock_ha_orchestrator.Outbox.Store.{PendingOutboxMessage, OutboxPublishResult}

-- The attributes of a receipt that `getattr` finds. `rc` is none where the attribute is None, and
-- 0 where it is missing; `wait` is how `wait_for_publish` ends, if there is such a method.
pub record Receipt : Type 0 where
  pub rc : Option ℕ
  pub wait : Option (Result String (Unit {0}))
  pub is_published : Option Bool

-- `return_code not in (0, None)`
abbrev pub is_refused : Option ℕ → Bool
is_refused none = false
is_refused (some code) = not (code == 0)

abbrev pub wait_done : Option (Result String (Unit {0})) → Result String (Unit {0})
wait_done none = ok tt
wait_done (some r) = r

abbrev pub is_unacknowledged : Option Bool → Bool
is_unacknowledged none = false
is_unacknowledged (some b) = not b

unfoldable pub wait_for_publish_ack : Option Receipt → Result String (Unit {0})
wait_for_publish_ack none = ok tt
wait_for_publish_ack (some r) = do
  raise_if (is_refused r.rc) "RuntimeError"
  wait_done r.wait
  raise_if (is_unacknowledged r.is_published) "RuntimeError"

-- The result of a message whose publish ended so at a time.
unfoldable pub result_of : ℕ → PendingOutboxMessage → Result String (Unit {0}) → OutboxPublishResult
result_of now m (ok _) = record {
  message_id = m.id;
  published = true;
  published_at = some now;
  error = none;
}
result_of now m (err name) = record {
  message_id = m.id;
  published = false;
  published_at = none;
  error = some name;
}

module _ (publish : PendingOutboxMessage → Result String (Option Receipt)) (now : ℕ) where
  -- The body of the loop, with its `try`.
  unfoldable pub publish_one : PendingOutboxMessage → OutboxPublishResult
  unfolding wait_for_publish_ack result_of
  publish_one message = result_of now message (publish message >>= wait_for_publish_ack)

  unfoldable pub publish_pending : List PendingOutboxMessage → List OutboxPublishResult
  unfolding publish_one
  publish_pending messages = map publish_one messages

-- The result of a message names it, and says that it was published exactly if the client took it
-- without an exception and its receipt, if any, reports success and acknowledgement.
pub result_of_lem :
    (now : ℕ) (m : PendingOutboxMessage) (r : Result String (Unit {0}))
    → ((result_of now m r).message_id ≡ m.id) × ((result_of now m r).published ≡ is_ok r)
unfolding result_of
result_of_lem now m (ok _) = (refl, refl)
result_of_lem now m (err name) = (refl, refl)
