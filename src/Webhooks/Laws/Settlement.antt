-- ===== src/Webhooks/Laws/Settlement.antt =====
-- The branches of `_run_attempt`, core/webhooks/dispatcher.py, once the sink has answered.
use vendorfake.Prelude.{◌≡◌, refl, true, false, none, some, Bool-cases, inl, inr}
use vendorfake.Json.{ℤ}
use vendorfake.Numbers.{at_least_zero}
use vendorfake.Errors.{Result, ok, err, Error, Result-cases}
use vendorfake.Webhooks.Models.{outcome_of, delivered, failed, exhausted}
use vendorfake.Webhooks.Retry.{schedule_exhausted, retry_delay_ms}
use vendorfake.Webhooks.State.{Attempt, SinkResult, Context, Dispatcher}
use vendorfake.Webhooks.Log.{Evidence, record_delivery}
use vendorfake.Webhooks.Attempts.{
  evidence, or_else, dropped_ack, next_queued, schedule_retry, settle_attempt, is_delivered,
}

-- What is recorded of an attempt whose answer is no success.
abbrev pub last_evidence : Attempt → SinkResult → Evidence
last_evidence a result =
    evidence a result (some (or_else result.error "retry schedule exhausted")) none

abbrev pub retry_evidence : Attempt → SinkResult → ℤ → Evidence
retry_evidence a result delay =
    evidence a result (dropped_ack a.queued.drop_ack result.error) (some delay)

-- The four ways in which an attempt ends; `p` is what the call gives.
pub data Settlement (x : Context) (a : Attempt) (result : SinkResult) (d : Dispatcher)
    (p : Result (Unit {0}) × Dispatcher) : Type 0 where
  delivers :
      is_delivered a.queued result ≡ true
      → p ≡ (ok tt, record_delivery x a.queued delivered (evidence a result none none) d)
      → Settlement x a result d p
  gives_up :
      is_delivered a.queued result ≡ false
      → schedule_exhausted d.retry a.queued.retry_number ≡ true
      → p ≡ (ok tt, record_delivery x a.queued exhausted (last_evidence a result) d)
      → Settlement x a result d p
  retries :
      (delay : ℤ)
      → is_delivered a.queued result ≡ false
      → schedule_exhausted d.retry a.queued.retry_number ≡ false
      → retry_delay_ms d.retry a.queued.retry_number ≡ ok delay
      → p ≡ (
        ok tt,
        schedule_retry x
            (next_queued (outcome_of result.status result.timed_out) a.queued)
            (at_least_zero delay)
            (record_delivery x a.queued failed (retry_evidence a result delay) d),
      )
      → Settlement x a result d p
  raises :
      (e : Error)
      → is_delivered a.queued result ≡ false
      → schedule_exhausted d.retry a.queued.retry_number ≡ false
      → retry_delay_ms d.retry a.queued.retry_number ≡ err e
      → p ≡ (err e, d)
      → Settlement x a result d p

pub settle_attempt-Settlement :
    (x : Context) (a : Attempt) (result : SinkResult) (d : Dispatcher)
    → Settlement x a result d (settle_attempt x a result d)
unfolding settle_attempt
settle_attempt-Settlement x a result d = elim (Bool-cases (is_delivered a.queued result)) [
  | inl good ↦ delivers good (rw good refl)
  | inr bad ↦ elim (Bool-cases (schedule_exhausted d.retry a.queued.retry_number)) [
    | inl over ↦ gives_up bad over (rw (bad, over) refl)
    | inr more ↦ elim (Result-cases (retry_delay_ms d.retry a.queued.retry_number)) [
      | inl (e, unknown) ↦ raises e bad more unknown (rw (bad, more, unknown) refl)
      | inr (delay, known) ↦ retries delay bad more known (rw (bad, more, known) refl)
    ]
  ]
]
