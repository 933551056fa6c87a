-- ===== src/Webhooks/Tests.antt =====
-- A dispatcher of core/webhooks/dispatcher.py with one event, and the theorems at work on it.
use vendorfake.Prelude.{◌≤◌, refl, true, false, none, [], ◌∷◌, arith}
use vendorfake.Webhooks.Retry.{schedule_exhausted, retry_delay_ms}
use vendorfake.Webhooks.Attempts.{is_delivered, request_of, run_attempt}
use vendorfake.Webhooks.Enqueue.{Plan, sends, carry_out}
use vendorfake.Webhooks.Laws.Outcome.{Ended, run_attempt_outcome}
use vendorfake.Webhooks.Laws.Sending.{Submitted}
use vendorfake.Webhooks.Laws.Faulted.{planned, carry_out_order}
use vendorfake.Webhooks.Samples.{signer, failing, queued, last_attempt, idle}

run_attempt_outcome_example :
    Ended false true
      (retry_delay_ms idle.retry last_attempt.queued.retry_number)
      queued
      (record idle { sent = request_of last_attempt idle ∷ [] })
      (run_attempt failing last_attempt idle)
unfolding is_delivered schedule_exhausted
run_attempt_outcome_example = run_attempt_outcome failing signer last_attempt idle refl

-- A delivery that is sent twice.
abbrev twice : Plan
twice = sends queued ("rule:webhook.duplicate" ∷ []) 2 0

carry_out_order_example :
    Submitted (planned failing signer twice none) idle (carry_out failing twice idle)
carry_out_order_example = carry_out_order failing signer twice idle refl refl (refl, room)
  where
    room : 2 ≤ 10000
    room = omega arith
