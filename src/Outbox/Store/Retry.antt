-- ===== src/Outbox/Store/Retry.antt =====
-- Retries: the delay, the dead letters, and the recovery of rows whose worker died.
use clock_ha_orchestrator.Prelude.{
  ℕ, zero, suc, ◌+◌, ◌-◌, ◌*◌, ◌^◌, ◌≡◌, ◌≤◌, min, List, [], ◌∷◌, if◌then◌else◌, leb, length, arith,
}
use native.Mathlib.Nat.{pow-suc}
use clock_ha_orchestrator.Outbox.Store.{
  OutboxEvent, OutboxPublishResult, OutboxRetryPolicy, Status, second, retry_delay, record_failure,
}

pub one-le-pow : (n : ℕ) → 1 ≤ 2 ^ n
one-le-pow zero = omega arith
one-le-pow (suc n) = omega (arith, one-le-pow n, pow-suc 2 n)

pub pow_mono : (m n : ℕ) → m ≤ n → 2 ^ m ≤ 2 ^ n
pow_mono zero n h = omega (arith, one-le-pow n)
pow_mono (suc m) zero h = elim h [ ]
pow_mono (suc m) (suc n) h = omega (arith, pow_mono m n (omega arith), pow-suc 2 m, pow-suc 2 n)

pub mul_mono : (b c d : ℕ) → c ≤ d → b * c ≤ b * d
mul_mono b c d h = grind arith

-- For a draw within the jitter, a retry waits at least the base delay or the maximum, whichever is
-- less, and at most the maximum and the jitter.
pub retry_delay_bounds :
    (p : OutboxRetryPolicy) (draw attempts : ℕ)
    → draw ≤ p.jitter_seconds * second
    → (min p.base_delay_seconds p.max_delay_seconds * second ≤ retry_delay p draw attempts)
      × (retry_delay p draw attempts ≤ (p.max_delay_seconds + p.jitter_seconds) * second)
unfolding retry_delay
retry_delay_bounds p draw attempts h =
    ground (arith, mul_mono p.base_delay_seconds 1 (2 ^ (attempts - 1)) (one-le-pow (attempts - 1)))

-- A later attempt of a message never waits less, the jitter aside.
pub retry_delay_mono :
    (p : OutboxRetryPolicy) (a b : ℕ) → a ≤ b → retry_delay p 0 a ≤ retry_delay p 0 b
unfolding retry_delay
retry_delay_mono p a b h = ground (
  arith,
  mul_mono p.base_delay_seconds (2 ^ (a - 1)) (2 ^ (b - 1))
      (pow_mono (a - 1) (b - 1) (omega arith)),
)

-- A failed attempt, as a draw of the jitter, a time and the error.
abbrev pub Failure : Type 0
Failure = OutboxPublishResult × ℕ × ℕ

-- The failed attempts of one message, from the first on.
unfoldable pub fail_all : OutboxRetryPolicy → List Failure → OutboxEvent → OutboxEvent
fail_all p [] row = row
fail_all p ((res, draw, now) ∷ fs) row = fail_all p fs (record_failure p res draw now row)

fail_all-attempts :
    (p : OutboxRetryPolicy) (fs : List Failure) (row : OutboxEvent)
    → (fail_all p fs row).attempts ≡ row.attempts + length fs
unfolding fail_all record_failure
fail_all-attempts p [] row = omega arith
fail_all-attempts p ((res, draw, now) ∷ fs) row =
    ground (arith, fail_all-attempts p fs (record_failure p res draw now row))

-- After its failures a message is a dead letter if they are as many as the policy allows in all, and
-- waits for a retry if they are fewer.
pub fail_all-status :
    (p : OutboxRetryPolicy) (f : Failure) (fs : List Failure) (row : OutboxEvent)
    → (fail_all p (f ∷ fs) row).status ≡ (
        if leb p.max_attempts (row.attempts + length (f ∷ fs))
        then Status.dead_letter
        else Status.retrying)
unfolding fail_all record_failure
fail_all-status p (res, draw, now) [] row = ground arith
fail_all-status p (res, draw, now) (g ∷ fs) row =
    ground (arith, fail_all-status p g fs (record_failure p res draw now row))
