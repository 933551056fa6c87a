-- ===== src/Worker/Steps.antt =====
-- What each critical section of the worker found when it was open, and what it left.
use vendorfake.Prelude.{
  ℕ, ◌+◌, ◌≤◌, ◌<◌, String, ◌≡◌, true, false, Option, none, some, List, [], ◌∷◌, ◌++◌, arith,
  length, Option-cases, List-cases, inl, inr,
}
use Prim.Native.String.{◌++◌ as text_append}
use vendorfake.Ring.{push, length-push-le}
use vendorfake.Errors.{ok}
use vendorfake.Worker.Defs.{
  DeliveryWorker, busy, submit, take, exit, finish, queue_capacity, failure_capacity, captured,
}

pub submit-true :
    (job : ℕ) (label : String) (w : DeliveryWorker)
    → (submit job label w).0 ≡ ok true
    → (w.stopped ≡ false)
      × (length w.queue < queue_capacity)
      × ((submit job label w).1
          ≡ record w { queue = w.queue ++ job ∷ []; generation = w.generation + 1; started = true })
unfolding submit
submit-true job label w h = (ground arith, ground arith, ground arith)

pub submit-false :
    (job : ℕ) (label : String) (w : DeliveryWorker)
    → (submit job label w).0 ≡ ok false
    → (failures : List String) × (length failures ≤ failure_capacity)
      × ((submit job label w).1 ≡ record w { failures = failures })
unfolding submit
submit-false job label w h =
    let dropped = text_append "queue full: " label in
    (
      push failure_capacity w.failures dropped,
      length-push-le failure_capacity w.failures dropped,
      ground arith,
    )

pub take-some :
    (w w' : DeliveryWorker) (job : ℕ)
    → take w ≡ some (job, w')
    → (rest : List ℕ) × (w.queue ≡ job ∷ rest)
      × (w.running ≡ none)
      × (w.started ≡ true)
      × (w.exited ≡ false)
      × (w' ≡ record w { queue = rest; running = some job })
unfolding take busy
take-some w w' job h = elim (List-cases w.queue) [
  | inl empty ↦ ground (arith, empty, h)
  | inr (j, rest, full) ↦ elim (Option-cases w.running) [
    | inl idle ↦ (
      rest,
      ground (arith, full, idle, h),
      idle,
      ground (arith, full, idle, h),
      ground (arith, full, idle, h),
      ground (arith, full, idle, h),
    )
    | inr (k, runs) ↦ ground (arith, full, runs, h)
  ]
]

pub finish-some :
    (raised : Option String) (w w' : DeliveryWorker) (job : ℕ)
    → finish raised w ≡ some (job, w')
    → (w.running ≡ some job)
      × (w' ≡ record w {
        running = none;
        generation = w.generation + 1;
        failures = captured raised w.failures;
      })
unfolding finish
finish-some raised w w' job h = elim (Option-cases w.running) [
  | inl idle ↦ ground (arith, idle, h)
  | inr (j, runs) ↦ (ground (arith, runs, h), ground (arith, runs, h))
]

pub exit-some :
    (w w' : DeliveryWorker)
    → exit w ≡ some w'
    → (w.queue ≡ []) × (w.running ≡ none) × (w.stopped ≡ true) × (w' ≡ record w { exited = true })
unfolding exit busy
exit-some w w' h = elim (List-cases w.queue) [
  | inl empty ↦ elim (Option-cases w.running) [
    | inl idle ↦ (empty, idle, ground (arith, empty, idle, h), ground (arith, empty, idle, h))
    | inr (k, runs) ↦ ground (arith, empty, runs, h)
  ]
  | inr (j, rest, full) ↦ ground (arith, full, h)
]

pub length-captured-le :
    (raised : Option String) (failures : List String)
    → length failures ≤ failure_capacity
    → length (captured raised failures) ≤ failure_capacity
length-captured-le none failures h = h
length-captured-le (some f) failures h = length-push-le failure_capacity failures f
