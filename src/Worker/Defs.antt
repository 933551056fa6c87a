-- ===== src/Worker/Defs.antt =====
-- `DeliveryWorker` of core/webhooks/worker.py. Each function is one critical section under the
-- worker's condition; a job, known by a number, runs between `take` and `finish`.
use vendorfake.Prelude.{
  ℕ, ◌+◌, String, Bool, true, false, not, ◌&&◌, Option, none, some, List, [], ◌∷◌, ◌++◌, leb,
  length, if◌then◌else◌,
}
use Prim.Native.String.{◌++◌ as text_append}
use vendorfake.Ring.{push}
use vendorfake.Errors.{Result, ok, err, runtime_error}

-- `QUEUE_CAPACITY`
abbrev pub queue_capacity : ℕ
queue_capacity = 10000

-- `FAILURE_CAPACITY`
abbrev pub failure_capacity : ℕ
failure_capacity = 10000

-- `running` is the job in flight, so `_busy` is whether there is one; `started` is whether
-- `_thread` was made, and `exited` whether `_run` has returned.
pub record DeliveryWorker : Type 0 where
  pub queue : List ℕ
  pub running : Option ℕ
  pub stopped : Bool
  pub generation : ℕ
  pub failures : List String
  pub started : Bool
  pub exited : Bool

-- `DeliveryWorker()`
unfoldable pub new_worker : DeliveryWorker
new_worker = record {
  queue = [];
  running = none;
  stopped = false;
  generation = 0;
  failures = [];
  started = false;
  exited = false;
}

-- `busy`
unfoldable pub busy : DeliveryWorker → Bool
busy w = elim w.running [ none ↦ false | some job ↦ true ]

-- `pending`
unfoldable pub pending : DeliveryWorker → ℕ
pending w = length w.queue

-- `submit`
unfoldable pub submit : ℕ → String → DeliveryWorker → Result Bool × DeliveryWorker
submit job label w =
    if w.stopped
    then (err runtime_error, w)
    else (if leb queue_capacity (length w.queue)
        then (
          ok false,
          record w {
            failures = push failure_capacity w.failures (text_append "queue full: " label);
          },
        )
        else (
          ok true,
          record w { queue = w.queue ++ job ∷ []; generation = w.generation + 1; started = true },
        ))

-- `_run`, from the wait to the start of a job: `none` while the thread waits or a job runs.
unfoldable pub take : DeliveryWorker → Option (ℕ × DeliveryWorker)
take w = elim w.queue [
  | [] ↦ none
  | job ∷ rest ↦
      if w.started && not w.exited && not (busy w)
      then some (job, record w { queue = rest; running = some job })
      else none
]

-- `_run`, the return: the queue is empty and the worker is stopped.
unfoldable pub exit : DeliveryWorker → Option DeliveryWorker
exit w = elim w.queue [
  | [] ↦
      if w.started && w.stopped && not w.exited && not (busy w)
      then some (record w { exited = true })
      else none
  | job ∷ rest ↦ none
]

abbrev pub captured : Option String → List String → List String
captured none failures = failures
captured (some f) failures = push failure_capacity failures f

-- `_run`, the end of a job, which may have raised: what was raised is kept as a failure.
unfoldable pub finish : Option String → DeliveryWorker → Option (ℕ × DeliveryWorker)
finish raised w = elim w.running [
  | none ↦ none
  | some job ↦ some (
    job,
    record w {
      running = none;
      generation = w.generation + 1;
      failures = captured raised w.failures;
    },
  )
]

-- `stop`, up to the join.
unfoldable pub stop : DeliveryWorker → DeliveryWorker
stop w = record w { stopped = true }

abbrev pub is_empty_queue : List ℕ → Bool
is_empty_queue [] = true
is_empty_queue (j ∷ js) = false

-- `not (self._queue or self._busy)`
unfoldable pub is_settled : DeliveryWorker → Bool
is_settled w = is_empty_queue w.queue && not (busy w)

-- `quiesce`: `none` while it waits; `timed_out` is whether the deadline has passed.
unfoldable pub quiesce : Bool → Bool → DeliveryWorker → Result (Option Bool)
unfolding is_settled
quiesce from_worker timed_out w =
    if w.started && from_worker
    then err runtime_error
    else (if is_settled w then ok (some true) else (if timed_out then ok (some false) else ok none))
