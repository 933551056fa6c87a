-- ===== src/Webhooks/Work.antt =====
-- The worker's thread and the clock at work on the dispatcher's closures, and `drain` of
-- core/webhooks/dispatcher.py on a virtual clock.
use vendorfake.Prelude.{ℕ, zero, suc, String, Option, none, some, List, [], ◌∷◌}
use vendorfake.Errors.{Result, ok, err}
use vendorfake.Action.{Action}
use vendorfake.Clock.Defs.{Timer, without}
use vendorfake.Worker.Defs.{take, finish}
use vendorfake.Webhooks.Models.{skipped, dropped}
use vendorfake.Webhooks.State.{
  Closure, submits, runs, skips, drops, Context, Dispatcher, clock_of, set_clock,
}
use vendorfake.Webhooks.Log.{record_delivery, no_evidence}
use vendorfake.Webhooks.Attempts.{submit_attempt, run_attempt}

abbrev pub closure_at : List Closure → ℕ → Option Closure
closure_at [] n = none
closure_at (c ∷ cs) zero = some c
closure_at (c ∷ cs) (suc n) = closure_at cs n

-- What `_run` keeps of a job that raised; the text of the exception is not kept.
abbrev pub failure_of : Result (Unit {0}) → Option String
failure_of (ok done) = none
failure_of (err e) = some "job raised"

-- The end of a job.
abbrev pub finished : Option String → Dispatcher → Option Dispatcher
finished raised d = elim (finish raised d.worker) [
  | none ↦ none
  | some (job, w) ↦ some (record d { worker = w })
]

module _ (x : Context) where
  -- A closure is called.
  unfoldable pub call : Closure → Action Dispatcher (Unit {0})
  call (submits a) d = submit_attempt x a d
  call (runs a) d = run_attempt x a d
  call (skips q error) d = (ok tt, record_delivery x q skipped (no_evidence error) d)
  call (drops q error) d = (ok tt, record_delivery x q dropped (no_evidence error) d)

  unfoldable pub call_at : ℕ → Action Dispatcher (Unit {0})
  unfolding call
  call_at n d = elim (closure_at d.closures n) [ none ↦ (ok tt, d) | some c ↦ call c d ]

  -- One turn of the worker's thread: a job is taken, run and ended; `none` if there is none.
  unfoldable pub work : Dispatcher → Option Dispatcher
  unfolding call_at
  work d = elim (take d.worker) [
    | none ↦ none
    | some (job, w) ↦
        let (result, d') = call_at job (record d { worker = w }) in finished (failure_of result) d'
  ]

  -- `settle`: the worker runs until it finds no job; `none` when the fuel runs out.
  unfoldable pub settle : ℕ → Dispatcher → Option Dispatcher
  unfolding work
  settle zero d = none
  settle (suc fuel) d = elim (work d) [ none ↦ some d | some d' ↦ settle fuel d' ]

  -- A timer of the clock runs out: it is removed, then its callback is called.
  unfoldable pub fire : Timer → Action Dispatcher (Unit {0})
  unfolding call_at without
  fire t d =
      call_at t.fn (set_clock (record (clock_of d) { timers = without t.id (clock_of d).timers }) d)
