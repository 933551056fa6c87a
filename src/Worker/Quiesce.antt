-- ===== src/Worker/Quiesce.antt =====
-- Proofs about `DeliveryWorker.quiesce`.
use vendorfake.Prelude.{
  ℕ, ◌+◌, ◌≡◌, ap, ◌∙◌, sym, Bool, true, false, none, some, List, [], ◌∷◌, ◌++◌, arith, append-nil,
  Bool-cases, Option-cases, List-cases, inl, inr, ◌⊎◌,
}
use vendorfake.Errors.{ok}
use vendorfake.Worker.Defs.{DeliveryWorker, busy, take, finish, is_settled, quiesce}
use vendorfake.Worker.Runs.{Run, in_flight, Run-IsWorker}

quiesce-true :
    (from_worker timed_out : Bool) (w : DeliveryWorker)
    → quiesce from_worker timed_out w ≡ ok (some true)
    → (w.queue ≡ []) × (w.running ≡ none)
unfolding quiesce is_settled busy
quiesce-true from_worker timed_out w h = elim (List-cases w.queue) [
  | inl empty ↦ elim (Option-cases w.running) [
    | inl idle ↦ (empty, idle)
    | inr (k, runs) ↦ ground (arith, empty, runs, h)
  ]
  | inr (j, rest, full) ↦ ground (arith, full, h)
]

-- When `quiesce` answers `True`, whatever was running beside it, every job that was ever accepted
-- is finished, in the order of acceptance.
pub quiesce-finished :
    (accepted finished : List ℕ) (w : DeliveryWorker) (from_worker timed_out : Bool)
    → Run accepted finished w
    → quiesce from_worker timed_out w ≡ ok (some true)
    → finished ≡ accepted
quiesce-finished accepted finished w from_worker timed_out r h =
    let (empty, idle) = quiesce-true from_worker timed_out w h in
    let i = Run-IsWorker accepted finished w r in
    sym (
      i.in_order
      ∙ ap (λ o. finished ++ in_flight o ++ w.queue) idle
      ∙ ap (λ (q : List ℕ). finished ++ [] ++ q) empty
      ∙ append-nil (finished ++ [])
      ∙ append-nil finished)

takes_next :
    (w : DeliveryWorker) (job : ℕ) (rest : List ℕ)
    → w.queue ≡ job ∷ rest
    → w.running ≡ none
    → w.started ≡ true
    → w.exited ≡ false
    → take w ≡ some (job, record w { queue = rest; running = some job })
unfolding take busy
takes_next w job rest full idle begun alive = ground (arith, full, idle, begun, alive)

ends_job :
    (w : DeliveryWorker) (job : ℕ)
    → w.running ≡ some job
    → (w' : DeliveryWorker) × (finish none w ≡ some (job, w'))
unfolding finish
ends_job w job runs =
    (record w { running = none; generation = w.generation + 1 }, ground (arith, runs))

-- As long as `quiesce` has to wait, the worker's thread can move: it takes the next job or ends the
-- one in flight. So nobody waits for a thread that was not started or has returned.
pub unsettled_moves :
    (accepted finished : List ℕ) (w : DeliveryWorker)
    → Run accepted finished w
    → is_settled w ≡ false
    → ((job : ℕ) × (w' : DeliveryWorker) × (take w ≡ some (job, w')))
      ⊎ ((job : ℕ) × (w' : DeliveryWorker) × (finish none w ≡ some (job, w')))
unfolding is_settled busy
unsettled_moves accepted finished w r h =
    let i = Run-IsWorker accepted finished w r in
    elim (Option-cases w.running) [
      | inr (job, runs) ↦ let (w', e) = ends_job w job runs in inr (job, w', e)
      | inl idle ↦ elim (List-cases w.queue) [
        | inl empty ↦ ground (arith, idle, empty, h)
        | inr (job, rest, full) ↦
            let begun : w.started ≡ true = elim (Bool-cases w.started) [
              | inl on ↦ on
              | inr off ↦ let (empty, nothing) = i.unstarted off in ground (arith, empty, full)
            ] in
            let alive : w.exited ≡ false = elim (Bool-cases w.exited) [
              | inl off ↦ let (empty, nothing, halted) = i.gone off in ground (arith, empty, full)
              | inr on ↦ on
            ] in
            inl (
              job,
              record w { queue = rest; running = some job },
              takes_next w job rest full idle begun alive,
            )
      ]
    ]
