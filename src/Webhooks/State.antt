-- ===== src/Webhooks/State.antt =====
-- The state of `WebhookDispatcher` (core/webhooks/dispatcher.py) and what it asks of the vendor,
-- the sink and the standard library.
use vendorfake.Prelude.{ℕ, String, Bool, true, false, Option, none, List, []}
use vendorfake.Dict.{Dict}
use vendorfake.Json.{ℤ, Value}
use vendorfake.Errors.{Result}
use vendorfake.Clock.Defs.{Clock}
use vendorfake.Registry.Defs.{Registry}
use vendorfake.Chaos.Engine.{ChaosEngine}
use vendorfake.Store.State.{Store, JournalEntry}
use vendorfake.Worker.Defs.{DeliveryWorker, new_worker}
use vendorfake.Webhooks.Models.{
  Subscription, PreparedEvent, MappedEvent, SignInput, DeliveryMetadata, DeliveryOutcome,
  DeliveryRecord,
}
use vendorfake.Webhooks.Retry.{RetryPolicy}

-- `DELIVERY_LOG_CAPACITY`
abbrev pub delivery_log_capacity : ℕ
delivery_log_capacity = 10000

-- `PREPARED_CAPACITY`
abbrev pub prepared_capacity : ℕ
prepared_capacity = 10000

-- `_Queued`
pub record Queued : Type 0 where
  pub event : PreparedEvent
  pub subscription : Subscription
  pub retry_number : ℕ
  pub initial_delivery_at : String
  pub drop_ack : Bool
  pub retry_reason : Option DeliveryOutcome
  pub chaos_applied : List String

-- `_Attempt`; the body's bytes are their text.
pub record Attempt : Type 0 where
  pub queued : Queued
  pub body_text : String
  pub headers : Dict String

-- `SinkRequest` and `SinkResult` of core/webhooks/sink.py
pub record SinkRequest : Type 0 where
  pub url : String
  pub headers : Dict String
  pub body : String
  pub timeout_ms : ℤ

pub record SinkResult : Type 0 where
  pub status : ℕ
  pub error : Option String
  pub timed_out : Bool

-- The vendor's `Signer`; `encode_body` is there if it is a `BodyEncodingSigner`.
pub record Signer : Type 0 where
  pub headers : DeliveryMetadata → Dict String
  pub sign : SignInput → Dict String
  pub encode_body : Option (PreparedEvent → String)

-- What is behind the dispatcher: the vendor's signer and event mapper, the sink, whose answer
-- may depend on what was sent before, and JSON, hashing, `repr` and `float`.
pub record Context : Type 0 where
  pub signer : Option Signer
  pub events : Option (JournalEntry → Result (List MappedEvent))
  pub send : List SinkRequest → SinkRequest → SinkResult
  pub dump_json : Value → String
  pub load_json : String → Option Value
  pub sha256_hex : String → String
  pub repr : Value → String
  pub parse_float : String → Option ℤ

-- The closures that the dispatcher hands out: `partial(self._submit_attempt, attempt)` to the
-- clock, `partial(self._run_attempt, attempt)` and `partial(self._record, queued, status, 0)` to
-- the worker.
pub data Closure : Type 0 where
  submits : Attempt → Closure
  runs : Attempt → Closure
  skips : Queued → String → Closure
  drops : Queued → String → Closure

-- `WebhookDispatcher`. The clock is the store's. `closures` are all that were handed out: the
-- clock and the worker know one by its place in this list. `sent` is what the sink received,
-- `noticed` what `on_log` was called with.
pub record Dispatcher : Type 0 where
  pub store : Store
  pub registry : Registry
  pub engine : ChaosEngine
  pub worker : DeliveryWorker
  pub closures : List Closure
  pub sent : List SinkRequest
  pub retry : RetryPolicy
  pub disabled : Bool
  pub enabled_flag : Bool
  pub muted : Bool
  pub on_log : Bool
  pub noticed : List DeliveryRecord
  pub log : List DeliveryRecord
  pub delivery_seq : ℕ
  pub event_seq : ℕ
  pub held_for_reorder : Option Queued
  pub prepared : List PreparedEvent

-- `WebhookDispatcher(...)`
unfoldable pub new_dispatcher :
    Store → Registry → ChaosEngine → RetryPolicy → Bool → Bool → Dispatcher
unfolding new_worker
new_dispatcher store registry engine retry disabled on_log = record {
  store = store;
  registry = registry;
  engine = engine;
  worker = new_worker;
  closures = [];
  sent = [];
  retry = retry;
  disabled = disabled;
  enabled_flag = true;
  muted = false;
  on_log = on_log;
  noticed = [];
  log = [];
  delivery_seq = 0;
  event_seq = 0;
  held_for_reorder = none;
  prepared = [];
}

-- The clock that the dispatcher shares with the store.
abbrev pub clock_of : Dispatcher → Clock
clock_of d = d.store.clock

abbrev pub set_clock : Clock → Dispatcher → Dispatcher
set_clock clock d = record d { store = record (d.store) { clock = clock } }
