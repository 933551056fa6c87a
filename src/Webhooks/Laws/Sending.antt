-- ===== src/Webhooks/Laws/Sending.antt =====
-- What the queueing of a delivery, core/webhooks/dispatcher.py, hands to the worker, and in what
-- order, while the worker has room.
use vendorfake.Prelude.{
  ℕ, suc, ◌+◌, ◌≤◌, String, ◌≡◌, refl, ap, sym, subst, ◌∙◌, true, false, List, [], ◌∷◌, ◌++◌,
  append_assoc, arith, length, length-append, leb,
}
use vendorfake.Errors.{Result, ok}
use vendorfake.Action.{Action, and_then, and_then-ok}
use vendorfake.Worker.Defs.{DeliveryWorker, submit, queue_capacity}
use vendorfake.Webhooks.State.{Queued, Context, Closure, Dispatcher, clock_of}
use vendorfake.Webhooks.Attempts.{submit_closure, refused}

-- The numbers of closures that are added when there are `n`.
abbrev pub numbers : ℕ → List Closure → List ℕ
numbers n [] = []
numbers n (c ∷ cs) = n ∷ numbers (n + 1) cs

-- The worker takes `k` more jobs.
abbrev pub HasRoom : ℕ → Dispatcher → Type 0
HasRoom k d = (d.worker.stopped ≡ false) × (length d.worker.queue + k ≤ queue_capacity)

-- The call returned; these closures went to the worker, in this order, behind what it had, and
-- nothing was sent, recorded or put on the clock.
pub record Submitted (cs : List Closure) (d : Dispatcher) (p : Result (Unit {0}) × Dispatcher)
    : Type 0 where
  pub returned : p.0 ≡ ok tt
  pub closures : p.1.closures ≡ d.closures ++ cs
  pub queue : p.1.worker.queue ≡ d.worker.queue ++ numbers (length d.closures) cs
  pub open_still : p.1.worker.stopped ≡ d.worker.stopped
  pub sent : p.1.sent ≡ d.sent
  pub log : p.1.log ≡ d.log
  pub clock : clock_of p.1 ≡ clock_of d

length-numbers : (n : ℕ) (cs : List Closure) → length (numbers n cs) ≡ length cs
length-numbers n [] = refl
length-numbers n (c ∷ cs) = omega (arith, length-numbers (n + 1) cs)

numbers-append :
    (n : ℕ) (cs ds : List Closure)
    → numbers n (cs ++ ds) ≡ numbers n cs ++ numbers (n + length cs) ds
numbers-append n [] ds = ap (λ m. numbers m ds) {x = n} {y = n + 0} (omega arith)
numbers-append n (c ∷ cs) ds =
    ap (λ ns. n ∷ ns)
      (numbers-append (n + 1) cs ds
        ∙ ap (λ m. numbers (n + 1) cs ++ numbers m ds) {x = n + 1 + length cs}
            {y = n + suc (length cs)} (omega arith))

submit-accepted :
    (job : ℕ) (label : String) (w : DeliveryWorker)
    → w.stopped ≡ false
    → length w.queue + 1 ≤ queue_capacity
    → submit job label w ≡ (
      ok true,
      record w { queue = w.queue ++ job ∷ []; generation = w.generation + 1; started = true },
    )
unfolding submit
submit-accepted job label w live room = rw (live, full, submit) refl
  where
    full : leb queue_capacity (length w.queue) ≡ false
    full = ground (arith, room)

-- The dispatcher with one more job.
abbrev queued_job : Closure → Dispatcher → Dispatcher
queued_job c d = record d {
  worker = record (d.worker) {
    queue = d.worker.queue ++ length d.closures ∷ [];
    generation = d.worker.generation + 1;
    started = true;
  };
  closures = d.closures ++ c ∷ [];
}

submit_closure-accepted :
    (c : Closure) (label : String) (d : Dispatcher)
    → HasRoom 1 d
    → submit_closure c label d ≡ (ok true, queued_job c d)
unfolding submit_closure
submit_closure-accepted c label d (live, room) =
    rw (submit-accepted (length d.closures) label d.worker live room, submit_closure) refl

queued_job-Submitted : (c : Closure) (d : Dispatcher) → Submitted (c ∷ []) d (ok tt, queued_job c d)
queued_job-Submitted c d = record {
  returned = refl;
  closures = refl;
  queue = refl;
  open_still = refl;
  sent = refl;
  log = refl;
  clock = refl;
}

-- One closure goes to the worker.
pub submit-Submitted :
    (x : Context) (c : Closure) (label : String) (q : Queued) (d : Dispatcher)
    → HasRoom 1 d
    → Submitted (c ∷ []) d (and_then (submit_closure c label) (λ accepted. refused x q accepted) d)
unfolding refused
submit-Submitted x c label q d room =
    subst (Submitted (c ∷ []) d)
      (sym (
        and_then-ok (submit_closure c label) (λ accepted. refused x q accepted) d (queued_job c d)
          true (submit_closure-accepted c label d room)))
      (queued_job-Submitted c d)

pub HasRoom-later :
    (cs : List Closure) (d : Dispatcher) (p : Result (Unit {0}) × Dispatcher) (k : ℕ)
    → Submitted cs d p
    → HasRoom (length cs + k) d
    → HasRoom k p.1
HasRoom-later cs d p k s (live, room) = (
  s.open_still ∙ live,
  omega (
    arith,
    room,
    ap (λ (ns : List ℕ). length ns) s.queue,
    length-append d.worker.queue (numbers (length d.closures) cs),
    length-numbers (length d.closures) cs,
  ),
)

-- One call after another.
Submitted-join :
    (cs ds : List Closure) (d : Dispatcher) (p q : Result (Unit {0}) × Dispatcher)
    → Submitted cs d p
    → Submitted ds p.1 q
    → Submitted (cs ++ ds) d q
Submitted-join cs ds d p q s t = record {
  returned = t.returned;
  closures = t.closures ∙ ap (λ xs. xs ++ ds) s.closures ∙ append_assoc d.closures cs ds;
  queue =
      t.queue
      ∙ ap (λ ns. ns ++ numbers (length p.1.closures) ds) s.queue
      ∙ append_assoc d.worker.queue (numbers (length d.closures) cs)
          (numbers (length p.1.closures) ds)
      ∙ ap (λ ns. d.worker.queue ++ ns)
          (ap (λ m. numbers (length d.closures) cs ++ numbers m ds)
              (ap (λ (xs : List Closure). length xs) s.closures ∙ length-append d.closures cs)
            ∙ sym (numbers-append (length d.closures) cs ds));
  open_still = t.open_still ∙ s.open_still;
  sent = t.sent ∙ s.sent;
  log = t.log ∙ s.log;
  clock = t.clock ∙ s.clock;
}

pub Submitted-and_then :
    (cs ds : List Closure) (m : Action Dispatcher (Unit {0}))
    (k : Unit {0} → Action Dispatcher (Unit {0})) (d : Dispatcher)
    → Submitted cs d (m d)
    → Submitted ds (m d).1 (k tt (m d).1)
    → Submitted (cs ++ ds) d (and_then m k d)
Submitted-and_then cs ds m k d s t =
    subst (Submitted (cs ++ ds) d) (sym (and_then-ok m k d (m d).1 tt (pair_eq (m d) s.returned)))
      (Submitted-join cs ds d (m d) (k tt (m d).1) s t)
  where
    pair_eq : (p : Result (Unit {0}) × Dispatcher) → p.0 ≡ ok tt → p ≡ (ok tt, p.1)
    pair_eq p e = ap (λ r. (r, p.1)) e
