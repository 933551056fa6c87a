-- ===== src/Webhooks/Samples.antt =====
-- A dispatcher of core/webhooks/dispatcher.py with one event, for the tests.
use vendorfake.Prelude.{true, false, none, some, [], ◌∷◌}
use vendorfake.Json.{pos, null, str, strs}
use vendorfake.Clock.Defs.{Clock, virtual}
use vendorfake.Registry.Defs.{Registry}
use vendorfake.Chaos.Engine.{ChaosEngine}
use vendorfake.Store.State.{Store, Entity}
use vendorfake.Webhooks.Models.{PreparedEvent, Subscription}
use vendorfake.Webhooks.Retry.{RetryPolicy}
use vendorfake.Webhooks.State.{Queued, Attempt, Signer, Context, runs, Dispatcher}

abbrev pub clock : Clock
clock = record {
  mode = virtual;
  wall = 0;
  virtual_now = 1000;
  next_id = 1;
  timers = [];
  handles = [];
  iso = λ t. "2024-01-01T00:00:01.000Z";
}

abbrev pub subscriber_entity : Entity
subscriber_entity =
    ("id", str "sub_1")
    ∷ ("notification_url", str "http://127.0.0.1/hook")
    ∷ ("event_types", strs ("*" ∷ []))
    ∷ []

abbrev pub store : Store
store = record {
  clock = clock;
  collections = ("subscriptions", ("sub_1", subscriber_entity) ∷ []) ∷ [];
  journal = [];
  idempotency = [];
  listeners = [];
  heard = [];
  muted = false;
  seq = 0;
  volatile_fields = [];
  opaque_fields = [];
}

abbrev pub registry : Registry
registry = record { profile_name = "test"; declared = []; routes_by_capability = []; enabled = [] }

abbrev pub engine : ChaosEngine
engine = record {
  rng = record { stream = λ n. 0; draws = 0 };
  now_iso = "";
  rules = [];
  state = [];
  history = [];
  enabled = true;
}

-- Two retries, 10 and 20 milliseconds after the attempt before.
abbrev pub two_retries : RetryPolicy
two_retries = record {
  schedule_ms = pos 10 ∷ pos 20 ∷ [];
  time_scale = λ n. some n;
  timeout_ms = pos 10000;
}

abbrev pub signer : Signer
signer = record {
  headers = λ meta. ("content-type", "application/json") ∷ [];
  sign = λ payload. ("x-signature", payload.secret) ∷ [];
  encode_body = none;
}

-- A subscriber that answers every request with a 500.
abbrev pub failing : Context
failing = record {
  signer = some signer;
  events = none;
  send = λ sent request. record { status = 500; error = none; timed_out = false };
  dump_json = λ v. "{}";
  load_json = λ t. some null;
  sha256_hex = λ t. "digest";
  repr = λ v. "";
  parse_float = λ t. none;
}

abbrev pub event : PreparedEvent
event = record {
  kind = "order.created";
  event_id = "evt_1";
  entity_id = "ord_1";
  created_at = "2024-01-01T00:00:00.000Z";
  body = null;
}

abbrev pub subscriber : Subscription
subscriber = record {
  id = "sub_1";
  notification_url = "http://127.0.0.1/hook";
  event_types = "*" ∷ [];
  signature_key = "secret";
  enabled = true;
  name = none;
  api_version = none;
}

abbrev pub queued : Queued
queued = record {
  event = event;
  subscription = subscriber;
  retry_number = 2;
  initial_delivery_at = "2024-01-01T00:00:00.000Z";
  drop_ack = false;
  retry_reason = none;
  chaos_applied = [];
}

abbrev pub last_attempt : Attempt
last_attempt = record {
  queued = queued;
  body_text = "{}";
  headers = ("x-signature", "secret") ∷ [];
}

abbrev pub idle : Dispatcher
idle = record {
  store = store;
  registry = registry;
  engine = engine;
  worker = record {
    queue = [];
    running = none;
    stopped = false;
    generation = 0;
    failures = [];
    started = false;
    exited = false;
  };
  closures = [];
  sent = [];
  retry = two_retries;
  disabled = false;
  enabled_flag = true;
  muted = false;
  on_log = false;
  noticed = [];
  log = [];
  delivery_seq = 0;
  event_seq = 0;
  held_for_reorder = none;
  prepared = [];
}

abbrev pub with_job : Dispatcher
with_job = record idle {
  worker = record (idle.worker) { queue = 0 ∷ []; started = true };
  closures = runs last_attempt ∷ [];
}
