-- ===== src/Webhooks/Attempts.antt =====
-- One delivery attempt, core/webhooks/dispatcher.py: `_build_attempt`, `_schedule`,
-- `_submit_attempt`, `_submit_terminal` and `_run_attempt`.
use Prim.Native.String.{◌++◌ as text_append}
use vendorfake.Prelude.{
  ℕ, ◌+◌, String, Bool, true, false, not, ◌&&◌, Option, none, some, [], ◌∷◌, ◌++◌, leb, ltb, length,
  if◌then◌else◌,
}
use vendorfake.Dict
use vendorfake.Dict.{Dict}
use vendorfake.Json.{ℤ}
use vendorfake.Numbers.{padded, at_least_zero}
use vendorfake.Errors.{ok, err}
use vendorfake.Action.{Action, and_then}
use vendorfake.Clock.Defs.{after}
use vendorfake.Worker.Defs.{submit}
use vendorfake.Webhooks.Models.{
  PreparedEvent, SignInput, DeliveryMetadata, DeliveryOutcome, outcome_of, delivered, failed,
  exhausted,
}
use vendorfake.Webhooks.Retry.{schedule_exhausted, retry_delay_ms}
use vendorfake.Webhooks.State.{
  Queued, Attempt, SinkRequest, SinkResult, Signer, Context, Closure, submits, runs, Dispatcher,
  clock_of,
}
use vendorfake.Webhooks.Log.{Evidence, no_evidence, record_delivery}

-- `_TIMER_PREFIX`
abbrev pub timer_prefix : String
timer_prefix = "webhook"

-- `headers.update(more)`
unfoldable pub update_headers : Dict String → Dict String → Dict String
update_headers headers [] = headers
update_headers headers ((k, v) ∷ more) = update_headers (Dict.put headers k v) more

-- `_schedule`
unfoldable pub schedule : Attempt → ℕ → String → Dispatcher → Dispatcher
schedule a delay_ms label d =
    let armed = (after delay_ms label (length d.closures) (clock_of d)).1 in
    record d { store = record (d.store) { clock = armed }; closures = d.closures ++ submits a ∷ [] }

-- `_job_label`
unfoldable pub job_label : Queued → String
job_label q = text_append q.event.event_id (text_append "->" q.subscription.id)

-- `self._worker.submit(closure, label=...)`
unfoldable pub submit_closure : Closure → String → Action Dispatcher Bool
submit_closure c label d =
    let (accepted, w) = submit (length d.closures) label d.worker in
    (accepted, record d { worker = w; closures = d.closures ++ c ∷ [] })

abbrev pub or_else : Option String → String → String
or_else none default = default
or_else (some e) default = e

-- `replace(queued, retry_number=queued.retry_number + 1, ...)`
unfoldable pub next_queued : DeliveryOutcome → Queued → Queued
next_queued outcome q = record q {
  retry_number = q.retry_number + 1;
  retry_reason = some outcome;
  drop_ack = false;
  chaos_applied = "retry" ∷ [];
}

-- The label of a retry's timer.
unfoldable pub retry_label : Queued → String
retry_label q =
    text_append "webhook-retry:"
      (text_append q.event.event_id (text_append "#" (padded 0 q.retry_number)))

abbrev pub evidence : Attempt → SinkResult → Option String → Option ℤ → Evidence
evidence a result error next = record {
  response_status = result.status;
  error = error;
  headers = a.headers;
  body_text = a.body_text;
  next_attempt_in_ms = next;
}

abbrev pub dropped_ack : Bool → Option String → Option String
dropped_ack true none = some "acknowledgement dropped by chaos rule"
dropped_ack _ error = error

-- `ok` of `_run_attempt`
unfoldable pub is_delivered : Queued → SinkResult → Bool
is_delivered q result = not q.drop_ack && (leb 200 result.status && ltb result.status 300)

abbrev pub request_of : Attempt → Dispatcher → SinkRequest
request_of a d = record {
  url = a.queued.subscription.notification_url;
  headers = a.headers;
  body = a.body_text;
  timeout_ms = d.retry.timeout_ms;
}

module _ (x : Context) where
  -- The bytes of the body: the vendor's encoding when it declares one.
  abbrev pub encoded : Option (PreparedEvent → String) → PreparedEvent → String
  encoded (some encode) event = encode event
  encoded none event = x.dump_json event.body

  -- `_build_attempt`, of a vendor that signs.
  unfoldable pub signed : Queued → Signer → Attempt
  unfolding update_headers
  signed q signer =
      let body = encoded signer.encode_body q.event in
      let meta : DeliveryMetadata = record {
        event = q.event;
        subscription_id = q.subscription.id;
        notification_url = q.subscription.notification_url;
        attempt = q.retry_number + 1;
        retry_number = q.retry_number;
        retry_reason = q.retry_reason;
        initial_delivery_at = q.initial_delivery_at;
      } in
      let payload : SignInput = record {
        notification_url = q.subscription.notification_url;
        raw_body = body;
        secret = q.subscription.signature_key;
        attempt = q.retry_number + 1;
        event = q.event;
      } in
      record {
        queued = q;
        body_text = body;
        headers = update_headers (update_headers [] (signer.headers meta)) (signer.sign payload);
      }

  -- `_build_attempt`
  unfoldable pub build_attempt : Queued → Option Attempt
  unfolding signed
  build_attempt q = elim x.signer [ none ↦ none | some signer ↦ some (signed q signer) ]

  -- The record of a job that the full queue refused.
  unfoldable pub refused : Queued → Bool → Action Dispatcher (Unit {0})
  unfolding record_delivery
  refused q true d = (ok tt, d)
  refused q false d = (ok tt, record_delivery x q failed (no_evidence "queue full") d)

  -- `_submit_attempt`
  unfoldable pub submit_attempt : Attempt → Action Dispatcher (Unit {0})
  unfolding submit_closure refused and_then
  submit_attempt a =
      and_then (submit_closure (runs a) (job_label a.queued))
        (λ accepted. refused a.queued accepted)

  -- `_submit_terminal`, of a closure that records.
  unfoldable pub submit_terminal : Closure → Queued → Action Dispatcher (Unit {0})
  unfolding submit_closure refused and_then
  submit_terminal c q = and_then (submit_closure c (job_label q)) (λ accepted. refused q accepted)

  -- The end of `_run_attempt`: the next attempt goes on the clock.
  unfoldable pub schedule_retry : Queued → ℕ → Dispatcher → Dispatcher
  unfolding build_attempt schedule
  schedule_retry q delay d = elim (build_attempt q) [
    | none ↦ d
    | some built ↦ schedule built delay (retry_label q) d
  ]

  -- `_run_attempt`, from the sink's answer on.
  unfoldable pub settle_attempt : Attempt → SinkResult → Action Dispatcher (Unit {0})
  unfolding is_delivered record_delivery next_queued schedule_retry
  settle_attempt a result d =
      if is_delivered a.queued result
      then (ok tt, record_delivery x a.queued delivered (evidence a result none none) d)
      else if schedule_exhausted d.retry a.queued.retry_number
      then (
        ok tt,
        record_delivery x a.queued exhausted
            (evidence a result (some (or_else result.error "retry schedule exhausted")) none) d,
      )
      else elim (retry_delay_ms d.retry a.queued.retry_number) [
        | err e ↦ (err e, d)
        | ok delay ↦ (
          ok tt,
          schedule_retry (next_queued (outcome_of result.status result.timed_out) a.queued)
              (at_least_zero delay)
              (record_delivery x a.queued failed
                (evidence a result (dropped_ack a.queued.drop_ack result.error) (some delay)) d),
        )
      ]

  -- `_run_attempt`
  unfoldable pub run_attempt : Attempt → Action Dispatcher (Unit {0})
  unfolding settle_attempt
  run_attempt a d =
      settle_attempt a (x.send d.sent (request_of a d))
        (record d { sent = d.sent ++ request_of a d ∷ [] })
