-- ===== src/Worker/Runs.antt =====
-- Every interleaving of submitters, the worker's thread and `stop`.
use vendorfake.Prelude.{
  ℕ, ◌+◌, ◌≤◌, ◌<◌, String, ◌≡◌, refl, ap, ◌∙◌, sym, true, false, Option, none, some, List, [], ◌∷◌,
  ◌++◌, arith, length, length-append, append-nil, append_assoc,
}
use vendorfake.Errors.{ok}
use vendorfake.Worker.Defs.{
  DeliveryWorker, new_worker, submit, take, exit, finish, stop, queue_capacity, failure_capacity,
  captured,
}
use vendorfake.Worker.Steps.{
  submit-true, submit-false, take-some, finish-some, exit-some, length-captured-le,
}

-- A run from the new worker, with the jobs that `submit` accepted and those that are finished,
-- both in order.
pub data Run : List ℕ → List ℕ → DeliveryWorker → Type 0 where
  start : Run [] [] new_worker
  submits :
      {accepted finished : List ℕ} {w : DeliveryWorker}
      → Run accepted finished w
      → (job : ℕ) (label : String) → (submit job label w).0 ≡ ok true
      → Run (accepted ++ job ∷ []) finished (submit job label w).1
  refused :
      {accepted finished : List ℕ} {w : DeliveryWorker}
      → Run accepted finished w
      → (job : ℕ) (label : String) → (submit job label w).0 ≡ ok false
      → Run accepted finished (submit job label w).1
  takes :
      {accepted finished : List ℕ} {w w' : DeliveryWorker} {job : ℕ}
      → Run accepted finished w
      → take w ≡ some (job, w')
      → Run accepted finished w'
  finishes :
      {accepted finished : List ℕ} {w w' : DeliveryWorker} {job : ℕ}
      → Run accepted finished w
      → (raised : Option String) → finish raised w ≡ some (job, w')
      → Run accepted (finished ++ job ∷ []) w'
  exits :
      {accepted finished : List ℕ} {w w' : DeliveryWorker}
      → Run accepted finished w
      → exit w ≡ some w'
      → Run accepted finished w'
  stops :
      {accepted finished : List ℕ} {w : DeliveryWorker}
      → Run accepted finished w
      → Run accepted finished (stop w)

abbrev pub in_flight : Option ℕ → List ℕ
in_flight none = []
in_flight (some job) = job ∷ []

-- What holds of the worker after any run.
pub record IsWorker (accepted finished : List ℕ) (w : DeliveryWorker) : Type 0 where
  pub in_order : accepted ≡ finished ++ in_flight w.running ++ w.queue
  pub counted : w.generation ≡ length accepted + length finished
  pub queue_fits : length w.queue ≤ queue_capacity
  pub failures_fit : length w.failures ≤ failure_capacity
  pub unstarted : w.started ≡ false → (w.queue ≡ []) × (w.running ≡ none)
  pub gone : w.exited ≡ true → (w.queue ≡ []) × (w.running ≡ none) × (w.stopped ≡ true)

new_worker-IsWorker : IsWorker [] [] new_worker
unfolding new_worker
new_worker-IsWorker = record {
  in_order = refl;
  counted = refl;
  queue_fits = omega arith;
  failures_fit = omega arith;
  unstarted = λ e. (refl, refl);
  gone = λ e. cc;
}

accept-IsWorker :
    (accepted finished : List ℕ) (w : DeliveryWorker) (job : ℕ)
    → IsWorker accepted finished w
    → w.stopped ≡ false
    → length w.queue < queue_capacity
    → IsWorker
        (accepted ++ job ∷ [])
        finished
        (record w { queue = w.queue ++ job ∷ []; generation = w.generation + 1; started = true })
accept-IsWorker accepted finished w job i live room = record {
  in_order =
      ap (λ (xs : List ℕ). xs ++ job ∷ []) i.in_order
      ∙ append_assoc (finished ++ in_flight w.running) w.queue (job ∷ []);
  counted = omega (arith, i.counted, length-append accepted (job ∷ []));
  queue_fits = omega (arith, length-append w.queue (job ∷ []));
  failures_fit = i.failures_fit;
  unstarted = λ e. cc;
  gone = λ e. let (empty, idle, halted) = i.gone e in cc;
}

take-IsWorker :
    (accepted finished : List ℕ) (w : DeliveryWorker) (job : ℕ) (rest : List ℕ)
    → IsWorker accepted finished w
    → w.queue ≡ job ∷ rest
    → w.running ≡ none
    → w.started ≡ true
    → w.exited ≡ false
    → IsWorker accepted finished (record w { queue = rest; running = some job })
take-IsWorker accepted finished w job rest i full idle begun alive = record {
  in_order =
      i.in_order
      ∙ ap (λ o. finished ++ in_flight o ++ w.queue) idle
      ∙ ap (λ (q : List ℕ). finished ++ [] ++ q) full
      ∙ ap (λ (xs : List ℕ). xs ++ job ∷ rest) (append-nil finished)
      ∙ sym (append_assoc finished (job ∷ []) rest);
  counted = i.counted;
  queue_fits = ground (arith, i.queue_fits, full);
  failures_fit = i.failures_fit;
  unstarted = λ e. cc;
  gone = λ e. cc;
}

finish-IsWorker :
    (accepted finished : List ℕ) (w : DeliveryWorker) (job : ℕ) (raised : Option String)
    → IsWorker accepted finished w
    → w.running ≡ some job
    → IsWorker accepted (finished ++ job ∷ []) (record w {
      running = none;
      generation = w.generation + 1;
      failures = captured raised w.failures;
    })
finish-IsWorker accepted finished w job raised i runs = record {
  in_order =
      i.in_order
      ∙ ap (λ o. finished ++ in_flight o ++ w.queue) runs
      ∙ ap (λ (xs : List ℕ). xs ++ w.queue) (sym (append-nil (finished ++ job ∷ [])));
  counted = omega (arith, i.counted, length-append finished (job ∷ []));
  queue_fits = i.queue_fits;
  failures_fit = length-captured-le raised w.failures i.failures_fit;
  unstarted = λ e. let (empty, idle) = i.unstarted e in cc;
  gone = λ e. let (empty, idle, halted) = i.gone e in cc;
}

exit-IsWorker :
    (accepted finished : List ℕ) (w : DeliveryWorker)
    → IsWorker accepted finished w
    → w.queue ≡ []
    → w.running ≡ none
    → w.stopped ≡ true
    → IsWorker accepted finished (record w { exited = true })
exit-IsWorker accepted finished w i empty idle halted = record {
  in_order = i.in_order;
  counted = i.counted;
  queue_fits = i.queue_fits;
  failures_fit = i.failures_fit;
  unstarted = i.unstarted;
  gone = λ e. (empty, idle, halted);
}

stop-IsWorker :
    (accepted finished : List ℕ) (w : DeliveryWorker)
    → IsWorker accepted finished w
    → IsWorker accepted finished (stop w)
unfolding stop
stop-IsWorker accepted finished w i = record {
  in_order = i.in_order;
  counted = i.counted;
  queue_fits = i.queue_fits;
  failures_fit = i.failures_fit;
  unstarted = i.unstarted;
  gone = λ e. let (empty, idle, halted) = i.gone e in (empty, idle, refl);
}

drop-IsWorker :
    (accepted finished : List ℕ) (w : DeliveryWorker) (failures : List String)
    → IsWorker accepted finished w
    → length failures ≤ failure_capacity
    → IsWorker accepted finished (record w { failures = failures })
drop-IsWorker accepted finished w failures i fits = record {
  in_order = i.in_order;
  counted = i.counted;
  queue_fits = i.queue_fits;
  failures_fit = fits;
  unstarted = i.unstarted;
  gone = i.gone;
}

-- After any interleaving the accepted jobs are the finished ones, the one in flight and the queued
-- ones, in this order: nothing is lost, doubled or overtaken. The queue and the failures are within
-- their bounds, and the generation counts the accepted and the finished jobs.
pub Run-IsWorker :
    (accepted finished : List ℕ) (w : DeliveryWorker)
    → Run accepted finished w
    → IsWorker accepted finished w
Run-IsWorker _ _ _ start = new_worker-IsWorker
Run-IsWorker _ _ _ (submits {accepted = a} {finished = f} {w = w} r job label e) =
    let (live, room, after) = submit-true job label w e in
    rw after (accept-IsWorker a f w job (Run-IsWorker a f w r) live room)
Run-IsWorker _ _ _ (refused {accepted = a} {finished = f} {w = w} r job label e) =
    let (failures, fits, after) = submit-false job label w e in
    rw after (drop-IsWorker a f w failures (Run-IsWorker a f w r) fits)
Run-IsWorker _ _ _ (takes {accepted = a} {finished = f} {w = w} {w' = w'} {job = job} r e) =
    let (rest, full, idle, begun, alive, after) = take-some w w' job e in
    rw after (take-IsWorker a f w job rest (Run-IsWorker a f w r) full idle begun alive)
Run-IsWorker _ _ _
      (finishes {accepted = a} {finished = f} {w = w} {w' = w'} {job = job} r raised e) =
    let (runs, after) = finish-some raised w w' job e in
    rw after (finish-IsWorker a f w job raised (Run-IsWorker a f w r) runs)
Run-IsWorker _ _ _ (exits {accepted = a} {finished = f} {w = w} {w' = w'} r e) =
    let (empty, idle, halted, after) = exit-some w w' e in
    rw after (exit-IsWorker a f w (Run-IsWorker a f w r) empty idle halted)
Run-IsWorker _ _ _ (stops {accepted = a} {finished = f} {w = w} r) =
    stop-IsWorker a f w (Run-IsWorker a f w r)
