-- ===== src/Webhooks/Laws/Outcome.antt =====
-- How a delivery attempt of core/webhooks/dispatcher.py ends: its record and its retry.
use vendorfake.Prelude.{
  ◌+◌, String, ◌≡◌, refl, Bool, true, false, none, some, [], ◌∷◌, ◌++◌, length,
}
use vendorfake.Json.{ℤ}
use vendorfake.Numbers.{at_least_zero}
use vendorfake.Ring.{push}
use vendorfake.Errors.{Result, ok, err}
use vendorfake.Clock.Defs.{after}
use vendorfake.Webhooks.Models.{
  DeliveryRecord, DeliveryStatus, delivered, failed, exhausted, outcome_of,
}
use vendorfake.Webhooks.Retry.{schedule_exhausted, retry_delay_ms}
use vendorfake.Webhooks.State.{
  Queued, Attempt, SinkResult, Signer, Context, submits, Dispatcher, delivery_log_capacity,
  clock_of,
}
use vendorfake.Webhooks.Log.{Evidence, delivery_id, next_record, log_record, record_delivery}
use vendorfake.Webhooks.Attempts.{
  signed, build_attempt, schedule, schedule_retry, next_queued, retry_label, evidence, is_delivered,
  request_of, settle_attempt, run_attempt,
}
use vendorfake.Webhooks.Laws.Settlement.{
  delivers, gives_up, retries, raises, settle_attempt-Settlement, last_evidence, retry_evidence,
}

-- The log of `d'` is that of `d` with one more record, of this event and attempt; nothing is sent.
pub record Logged (q : Queued) (status : DeliveryStatus) (d d' : Dispatcher) : Type 0 where
  pub entry : DeliveryRecord
  pub sent : d'.sent ≡ d.sent
  pub log : d'.log ≡ push delivery_log_capacity d.log entry
  pub numbered : entry.id ≡ delivery_id (d.delivery_seq + 1)
  pub of_event : entry.event_id ≡ q.event.event_id
  pub of_attempt : entry.attempt ≡ q.retry_number + 1
  pub ended : entry.status ≡ status

-- A later attempt of the same delivery.
pub record Follows (q next : Queued) : Type 0 where
  pub event : next.event ≡ q.event
  pub subscription : next.subscription ≡ q.subscription
  pub initial : next.initial_delivery_at ≡ q.initial_delivery_at
  pub counted : next.retry_number ≡ q.retry_number + 1
  pub real_answer : next.drop_ack ≡ false

-- A retry is on the clock, after the delay.
pub record Retried (q : Queued) (delay : ℤ) (d d' : Dispatcher) : Type 0 where
  pub next : Attempt
  pub label : String
  pub follows : Follows q next.queued
  pub on_clock :
      clock_of d' ≡ (after (at_least_zero delay) label (length d.closures) (clock_of d)).1
  pub closures : d'.closures ≡ d.closures ++ submits next ∷ []

-- No retry: the clock and the closures are as they were.
abbrev pub Unscheduled : Dispatcher → Dispatcher → Type 0
Unscheduled d d' = (clock_of d' ≡ clock_of d) × (d'.closures ≡ d.closures)

-- What the tests of `_run_attempt` on the answer and on the schedule, and the next delay, make of the
-- attempt, which started in `d`.
abbrev pub Ended :
    Bool → Bool → Result ℤ → Queued → Dispatcher → Result (Unit {0}) × Dispatcher → Type 0
Ended true over delay q d p = (p.0 ≡ ok tt) × Logged q delivered d p.1 × Unscheduled d p.1
Ended false true delay q d p = (p.0 ≡ ok tt) × Logged q exhausted d p.1 × Unscheduled d p.1
Ended false false (ok delay) q d p = (p.0 ≡ ok tt) × Logged q failed d p.1 × Retried q delay d p.1
Ended false false (err e) q d p = p ≡ (err e, d)

record_delivery-Logged :
    (x : Context) (q : Queued) (status : DeliveryStatus) (v : Evidence) (d : Dispatcher)
    → Logged q status d (record_delivery x q status v d)
unfolding record_delivery next_record log_record
record_delivery-Logged x q status v d = record {
  entry = next_record x q status v d;
  sent = refl;
  log = refl;
  numbered = refl;
  of_event = refl;
  of_attempt = refl;
  ended = refl;
}

record_delivery-Unscheduled :
    (x : Context) (q : Queued) (status : DeliveryStatus) (v : Evidence) (d : Dispatcher)
    → Unscheduled d (record_delivery x q status v d)
unfolding record_delivery log_record
record_delivery-Unscheduled x q status v d = (refl, refl)

schedule_retry-Retried :
    (x : Context) (s : Signer) (q q' : Queued) (v : Evidence) (delay : ℤ) (d : Dispatcher)
    → x.signer ≡ some s
    → Follows q q'
    → let d' = schedule_retry x q' (at_least_zero delay) (record_delivery x q failed v d) in
      Logged q failed d d' × Retried q delay d d'
unfolding schedule_retry schedule build_attempt signed record_delivery next_record log_record
schedule_retry-Retried x s q q' v delay d wired f =
    rw (wired, schedule_retry)
      (
        record {
          entry = next_record x q failed v d;
          sent = refl;
          log = refl;
          numbered = refl;
          of_event = refl;
          of_attempt = refl;
          ended = refl;
        },
        record {
          next = signed x q' s;
          label = retry_label q';
          follows = f;
          on_clock = refl;
          closures = refl;
        },
      )

next_queued-Follows :
    (result : SinkResult) (q : Queued)
    → Follows q (next_queued (outcome_of result.status result.timed_out) q)
unfolding next_queued
next_queued-Follows result q = record {
  event = refl;
  subscription = refl;
  initial = refl;
  counted = refl;
  real_answer = refl;
}

settle_attempt-Ended :
    (x : Context) (s : Signer) (a : Attempt) (result : SinkResult) (d : Dispatcher)
    → x.signer ≡ some s
    → Ended
        (is_delivered a.queued result)
        (schedule_exhausted d.retry a.queued.retry_number)
        (retry_delay_ms d.retry a.queued.retry_number)
        a.queued
        d
        (settle_attempt x a result d)
settle_attempt-Ended x s a result d wired = elim (settle_attempt-Settlement x a result d) [
  | delivers good e ↦
      rw (good, e)
        (
          refl,
          record_delivery-Logged x a.queued delivered (evidence a result none none) d,
          record_delivery-Unscheduled x a.queued delivered (evidence a result none none) d,
        )
  | gives_up bad over e ↦
      rw (bad, over, e)
        (
          refl,
          record_delivery-Logged x a.queued exhausted (last_evidence a result) d,
          record_delivery-Unscheduled x a.queued exhausted (last_evidence a result) d,
        )
  | retries delay bad more known e ↦
      let (logged, retried) =
        schedule_retry-Retried x s a.queued
          (next_queued (outcome_of result.status result.timed_out) a.queued)
          (retry_evidence a result delay) delay d wired (next_queued-Follows result a.queued) in
      rw (bad, more, known, e) (refl, logged, retried)
  | raises raised bad more unknown e ↦ rw (bad, more, unknown, e) refl
]

-- An attempt that runs sends one request. If the acknowledgement is not dropped and the status is
-- 2xx, it leaves one record, of its event and attempt, that says delivered, and else, if the schedule
-- has no delay left, one that says exhausted, and no retry is scheduled then. Else, if the scaled
-- delay is a number, the record says failed, and the next attempt of the same event to the same
-- subscriber stands on the clock, after that delay, with the next retry number and the same first
-- instant; and if the delay overflows, the attempt raises and leaves neither record nor retry.
pub run_attempt_outcome :
    (x : Context) (s : Signer) (a : Attempt) (d : Dispatcher)
    → x.signer ≡ some s
    → Ended
        (is_delivered a.queued (x.send d.sent (request_of a d)))
        (schedule_exhausted d.retry a.queued.retry_number)
        (retry_delay_ms d.retry a.queued.retry_number)
        a.queued
        (record d { sent = d.sent ++ request_of a d ∷ [] })
        (run_attempt x a d)
unfolding run_attempt
run_attempt_outcome x s a d wired =
    let d1 : Dispatcher = record d { sent = d.sent ++ request_of a d ∷ [] } in
    settle_attempt-Ended x s a (x.send d.sent (request_of a d)) d1 wired
