-- ===== src/Worker/Tests.antt =====
-- A worker of core/webhooks/worker.py that does one of two jobs, and the theorems at work on it.
use vendorfake.Prelude.{ℕ, ◌≡◌, refl, true, false, none, some, List, [], ◌∷◌}
use vendorfake.Errors.{ok}
use vendorfake.Worker.Defs.{
  DeliveryWorker, new_worker, submit, take, finish, is_settled, quiesce, busy,
}
use vendorfake.Worker.Runs.{Run, start, submits, takes, finishes, IsWorker, Run-IsWorker}
use vendorfake.Worker.Quiesce.{quiesce-finished}

abbrev idle_worker : DeliveryWorker
idle_worker = record {
  queue = [];
  running = none;
  stopped = false;
  generation = 0;
  failures = [];
  started = false;
  exited = false;
}

abbrev one_queued : DeliveryWorker
one_queued = record idle_worker { queue = 7 ∷ []; generation = 1; started = true }

abbrev one_running : DeliveryWorker
one_running = record one_queued { queue = []; running = some 7 }

abbrev one_done : DeliveryWorker
one_done = record one_running { running = none; generation = 2 }

queued_run : Run (7 ∷ []) [] one_queued
unfolding submit new_worker
queued_run = submits start 7 "delivery" refl

running_run : Run (7 ∷ []) [] one_running
unfolding take busy
running_run = takes queued_run refl

done_run : Run (7 ∷ []) (7 ∷ []) one_done
unfolding finish
done_run = finishes running_run none refl

settled : quiesce false false one_done ≡ ok (some true)
unfolding quiesce is_settled busy
settled = refl

not_settled : is_settled one_queued ≡ false
unfolding is_settled busy
not_settled = refl

Run-IsWorker_example : IsWorker (7 ∷ []) [] one_running
Run-IsWorker_example = Run-IsWorker (7 ∷ []) [] one_running running_run

abbrev one_job : List ℕ
one_job = 7 ∷ []

quiesce-finished_example : one_job ≡ one_job
quiesce-finished_example = quiesce-finished one_job one_job one_done false false done_run settled
