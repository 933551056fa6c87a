-- ===== src/Webhooks/Laws/Jobs.antt =====
-- What one job of the worker, core/webhooks/dispatcher.py, does to the dispatcher.
use vendorfake.Json.{ℤ}
use vendorfake.Webhooks.Retry.{RetryPolicy, schedule_exhausted, retry_delay_ms}
use vendorfake.Prelude.{
  false, ◌∙◌, ℕ, zero, suc, ◌+◌, ◌≡◌, refl, sym, none, some, List, [], ◌∷◌, ◌++◌, append-nil,
  Option-cases, inl, inr, All,
}
use vendorfake.Errors.{ok, err, Error}
use vendorfake.Numbers.{at_least_zero}
use vendorfake.Webhooks.Models.{
  DeliveryStatus, delivered, failed, exhausted, skipped, dropped, outcome_of,
}
use vendorfake.Webhooks.State.{
  Queued, Attempt, Context, Closure, submits, runs, skips, drops, Dispatcher, SinkResult,
}
use vendorfake.Webhooks.Log.{Evidence, record_delivery, log_record, no_evidence}
use vendorfake.Webhooks.Attempts.{
  build_attempt, schedule, schedule_retry, settle_attempt, run_attempt, request_of, next_queued,
  evidence,
}
use vendorfake.Webhooks.Work.{closure_at, call}
use vendorfake.Webhooks.Laws.Settlement.{
  delivers, gives_up, retries, raises, settle_attempt-Settlement, last_evidence, retry_evidence,
}

-- No delay of the schedule overflows when it is scaled.
abbrev pub IsScaled : RetryPolicy → Type 0
IsScaled policy =
    (n : ℕ)
    → schedule_exhausted policy n ≡ false
    → (delay : ℤ) × (retry_delay_ms policy n ≡ ok delay)

-- One record more, the worker as it was, and perhaps a closure more.
pub record Recorded (d d' : Dispatcher) : Type 0 where
  pub counted : d'.delivery_seq ≡ d.delivery_seq + 1
  pub same_worker : d'.worker ≡ d.worker
  pub same_retry : d'.retry ≡ d.retry
  pub more : List Closure
  pub extended : d'.closures ≡ d.closures ++ more

record_delivery-Recorded :
    (x : Context) (q : Queued) (status : DeliveryStatus) (v : Evidence) (d : Dispatcher)
    → Recorded d (record_delivery x q status v d)
unfolding record_delivery log_record
record_delivery-Recorded x q status v d = record {
  counted = refl;
  same_worker = refl;
  same_retry = refl;
  more = [];
  extended = sym (append-nil d.closures);
}

schedule_retry-Recorded :
    (x : Context) (q q' : Queued) (status : DeliveryStatus) (v : Evidence) (delay : ℕ)
    (d : Dispatcher)
    → Recorded d (schedule_retry x q' delay (record_delivery x q status v d))
unfolding schedule_retry schedule record_delivery log_record
schedule_retry-Recorded x q q' status v delay d = elim (Option-cases (build_attempt x q')) [
  | inl absent ↦ rw (absent, schedule_retry) (record_delivery-Recorded x q status v d)
  | inr (a, built) ↦
      rw (built, schedule_retry)
        (record {
          counted = refl;
          same_worker = refl;
          same_retry = refl;
          more = submits a ∷ [];
          extended = refl;
        })
]

not_raised :
    (policy : RetryPolicy) (n : ℕ) (e : Error)
    → IsScaled policy
    → schedule_exhausted policy n ≡ false
    → retry_delay_ms policy n ≡ err e
    → ⊥
not_raised policy n e scaled more unknown =
    let (delay, known) = scaled n more in let both = sym known ∙ unknown in cc

-- An attempt does not raise, unless a delay overflows, and leaves one record then.
settle_attempt-Recorded :
    (x : Context) (a : Attempt) (result : SinkResult) (d : Dispatcher)
    → IsScaled d.retry
    → ((settle_attempt x a result d).0 ≡ ok tt) × Recorded d (settle_attempt x a result d).1
settle_attempt-Recorded x a result d scaled = elim (settle_attempt-Settlement x a result d) [
  | delivers good e ↦
      rw e (refl, record_delivery-Recorded x a.queued delivered (evidence a result none none) d)
  | gives_up bad over e ↦
      rw e (refl, record_delivery-Recorded x a.queued exhausted (last_evidence a result) d)
  | retries delay bad more known e ↦ rw e (
    refl,
    schedule_retry-Recorded x a.queued
        (next_queued (outcome_of result.status result.timed_out) a.queued) failed
        (retry_evidence a result delay) (at_least_zero delay) d,
  )
  | raises e bad more unknown same ↦
      absurd (not_raised d.retry a.queued.retry_number e scaled more unknown)
]

run_attempt-Recorded :
    (x : Context) (a : Attempt) (d : Dispatcher)
    → IsScaled d.retry
    → ((run_attempt x a d).0 ≡ ok tt) × Recorded d (run_attempt x a d).1
unfolding run_attempt
run_attempt-Recorded x a d scaled =
    let (fine, r) =
      settle_attempt-Recorded x a (x.send d.sent (request_of a d))
        (record d { sent = d.sent ++ request_of a d ∷ [] }) scaled in
    (
      fine,
      record {
        counted = r.counted;
        same_worker = r.same_worker;
        same_retry = r.same_retry;
        more = r.more;
        extended = r.extended;
      },
    )

-- A closure that is handed to the worker.
abbrev pub IsJob : Closure → Type 0
IsJob (submits a) = ⊥
IsJob (runs a) = Unit
IsJob (skips q error) = Unit
IsJob (drops q error) = Unit

-- A job leaves one record, and does not raise, unless a delay overflows.
pub call-Recorded :
    (x : Context) (c : Closure) (d : Dispatcher)
    → IsJob c
    → IsScaled d.retry
    → ((call x c d).0 ≡ ok tt) × Recorded d (call x c d).1
unfolding call
call-Recorded x (submits a) d h scaled = absurd h
call-Recorded x (runs a) d h scaled = run_attempt-Recorded x a d scaled
call-Recorded x (skips q error) d h scaled =
    (refl, record_delivery-Recorded x q skipped (no_evidence error) d)
call-Recorded x (drops q error) d h scaled =
    (refl, record_delivery-Recorded x q dropped (no_evidence error) d)

-- A number names a job.
abbrev pub Names : List Closure → ℕ → Type 0
Names cs n = (c : Closure) × (closure_at cs n ≡ some c) × IsJob c

pub Names-append : (cs more : List Closure) (n : ℕ) → Names cs n → Names (cs ++ more) n
Names-append [] more n (c, found, job) = cc
Names-append (k ∷ cs) more zero h = h
Names-append (k ∷ cs) more (suc n) h = Names-append cs more n h

pub All-Names-append :
    (cs more : List Closure) (ns : List ℕ) → All (Names cs) ns → All (Names (cs ++ more)) ns
All-Names-append cs more [] h = tt
All-Names-append cs more (n ∷ ns) h = (Names-append cs more n h.0, All-Names-append cs more ns h.1)
