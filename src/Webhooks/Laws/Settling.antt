-- ===== src/Webhooks/Laws/Settling.antt =====
-- The worker's thread, core/webhooks/dispatcher.py and worker.py, at work on the queue.
use vendorfake.Prelude.{ℕ, ◌+◌, ◌≡◌, true, false, none, some, List, All}
use vendorfake.Worker.Defs.{DeliveryWorker}
use vendorfake.Webhooks.State.{Dispatcher}
use vendorfake.Webhooks.Laws.Jobs.{IsScaled, Names}

-- The worker's thread waits for a job, every number in its queue names one, and no delay of the
-- retry schedule overflows.
pub record Ready (d : Dispatcher) : Type 0 where
  pub started : d.worker.started ≡ true
  pub running : d.worker.running ≡ none
  pub alive : d.worker.exited ≡ false
  pub jobs : All (Names d.closures) d.worker.queue
  pub scaled : IsScaled d.retry

-- One job later.
pub record Worked (d d' : Dispatcher) (rest : List ℕ) : Type 0 where
  pub ready : Ready d'
  pub left : d'.worker.queue ≡ rest
  pub counted : d'.delivery_seq ≡ d.delivery_seq + 1

-- The worker while a job of the queue is in flight.
abbrev taken : DeliveryWorker → ℕ → List ℕ → DeliveryWorker
taken w job rest = record w { queue = rest; running = some job }
