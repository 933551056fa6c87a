-- ===== src/Unit/Tests.antt =====
-- A unit of core/kernel/unit.py with one route, and the theorems at work on it.
use vendorfake.Errors.{Error, forbidden_scope}
use vendorfake.Json.{document, strs}
use vendorfake.Unit.State.{AuthResult}
use vendorfake.Prelude.{
  inr, ◌+◌, ◌≤◌, String, ◌≡◌, refl, true, false, none, some, List, [], ◌∷◌, arith,
}
use vendorfake.Dict
use vendorfake.Dict.{Dict}
use vendorfake.Json.{Fields, field, end, obj, str, null}
use vendorfake.Errors.{ok, err, unit_error, unauthorized}
use vendorfake.Chaos.Engine.{ChaosDecision}
use vendorfake.Paths.{dot_get}
use vendorfake.Router.Defs.{Compiled, Route}
use vendorfake.Webhooks.State.{Dispatcher}
use vendorfake.Webhooks.Samples.{idle}
use vendorfake.Unit.State.{
  UnitRequest, UnitResponse, conflict, IdempotencySpec, HandlerArgs, Handled, Endpoint, new_trace,
  Run, UnitState, Vendor,
}
use vendorfake.Unit.Stages.{respond}
use vendorfake.Unit.Laws.Replay.{replay_of, retry_gets_the_stored_answer}
use vendorfake.Unit.Laws.Recorded.{Recorded}
use vendorfake.Paths.{
  walk, split_on, read_segment, cut_at, read_subscripts, size_of, index_all, index,
}
use vendorfake.Magic.{
  extract_magic, read_candidates, read_candidate, candidates, body_candidates, query_candidates,
  header_candidates, add_pairs, add_pair,
}
use vendorfake.Store.Idempotency.{get_idempotent}
use vendorfake.Registry.Defs.{
  assert_enabled, is_enabled, blocked_by, blocked_parent, parent, first_unmet, requires,
  starts_with,
}
use vendorfake.Chaos.Selector.{overlay, select_request, select_open}
use vendorfake.Chaos.Evaluate.{get_header, lower_is}
use vendorfake.Webhooks.Listen.{chars_from}
use vendorfake.Unit.RequestFaults.{commit_mode, is_commit_fault, has_phase}
use vendorfake.Unit.Pipeline.{after_handler, call_handler, refund_refused}
use vendorfake.Unit.Stages.{gate, select_fault, in_band_values, run_pipeline}
use vendorfake.Unit.Laws.Uncommitted.{SameState}
use vendorfake.Unit.Laws.CommitAfter.{commit_after_leaves_nothing}
use vendorfake.Unit.Laws.Refused.{refused_access_changes_nothing}

abbrev payment_route : Route
payment_route = record {
  method = "POST";
  path = "/v2/payments";
  capability = "payments";
  internal = false;
}

abbrev created : UnitResponse
created = record { status = 200; headers = []; body = "{}"; delay_ms = 0; transport = none }

-- A handler that moves the journal's counter.
abbrev create_payment : HandlerArgs → Dispatcher → Handled × Dispatcher
create_payment args d = (
  record { result = ok created; consumed = false },
  record d { store = record (d.store) { seq = d.store.seq + 1 } },
)

abbrev by_key : IdempotencySpec
by_key = record {
  key_path = "idempotency_key";
  scope = "payments";
  required = true;
  on_mismatch = conflict;
}

abbrev payments : Endpoint
payments = record {
  route = payment_route;
  operation_id = some "CreatePayment";
  auth = some "bearer";
  scopes = [];
  idempotency = some by_key;
  handler = create_payment;
}

abbrev body_fields : Fields
body_fields = field "idempotency_key" (str "key-1") end

-- A vendor whose credentials are all refused.
abbrev vendor : Vendor
vendor = record {
  endpoint = λ route. payments;
  magic = none;
  read_body = λ req. ok (obj body_fields);
  resolve = λ args scheme d. err (unit_error unauthorized none null);
  digest_of = λ v. "digest";
  b64url_encode = λ t. t;
  b64url_decode = λ t. t;
  faults = record { parse_float = λ t. none; advance = λ n d. d };
  answers = record {
    parse_json = λ text. none;
    dump_json = λ v. "";
    dumps = λ v. "";
    parse_prefix = λ text. none;
    quote = λ text. text;
  };
  shape = λ e d. created;
  not_found = λ req d. created;
  decorate = λ headers d req. headers;
  unquote = λ t. some t;
}

abbrev payment_request : UnitRequest
payment_request = record {
  id = "req-1";
  method = "POST";
  path = "/v2/payments";
  query = [];
  headers = [];
  raw_body = "{}";
  received_at = "2024-01-01T00:00:00.000Z";
}

abbrev args : HandlerArgs
args = record { req = payment_request; params = []; auth = none; fault = none }

abbrev first_run : Run
first_run = record { hooks = idle; trace = new_trace }

abbrev unit_state : UnitState
unit_state = record { hooks = idle; requests = record { capacity = 10; records = [] } }

abbrev id_field : Fields
id_field = field "id" (str "ord_1") end

abbrev id_name : String
id_name = "id"

reads_id : dot_get (obj id_field) id_name ≡ some (str "ord_1")
unfolding dot_get walk split_on read_segment cut_at read_subscripts size_of index_all index Dict.get
reads_id = refl

abbrev payment_table : List Compiled
payment_table =
    (record { route = payment_route; segments = "v2" ∷ "payments" ∷ []; param_names = [] }) ∷ []

-- The capability of the route is enabled, and with `chaos` also the faults.
abbrev enabled_hooks : List String → Dispatcher
enabled_hooks names = record idle {
  registry = record {
    profile_name = "test";
    declared = [];
    routes_by_capability = [];
    enabled = names;
  };
}

abbrev plain_run : Run
plain_run = record { hooks = enabled_hooks ("payments" ∷ []); trace = new_trace }

abbrev chaos_run : Run
chaos_run = record { hooks = enabled_hooks ("payments" ∷ "chaos" ∷ []); trace = new_trace }

retry_gets_the_stored_answer_example :
    respond vendor payments args none (respond vendor payments args none first_run).1
    ≡ (ok (replay_of created), (respond vendor payments args none first_run).1)
unfolding dot_get walk split_on read_segment cut_at read_subscripts size_of index_all index Dict.get
    get_idempotent after_handler call_handler refund_refused
retry_gets_the_stored_answer_example =
    retry_gets_the_stored_answer vendor payments args args by_key (obj body_fields) "key-1" created
      first_run refl refl refl refl refl refl refl refl tt room refl
  where
    room : 0 ≤ 10000
    room = omega arith

-- A vendor whose credentials have no scope, and a route that asks for one.
abbrev granted : AuthResult
granted = record { principal_id = "m1"; scopes = []; token_id = none }

abbrev scoped_vendor : Vendor
scoped_vendor = record vendor { resolve = λ args scheme d. ok granted }

abbrev scoped_payments : Endpoint
scoped_payments = record payments { scopes = "PAYMENTS_WRITE" ∷ [] }

abbrev after_selection : Run
after_selection = (select_fault scoped_vendor scoped_payments args.req plain_run).1

abbrev scope_refused : Error
scope_refused =
    unit_error forbidden_scope none
      (document (("missing", strs ("PAYMENTS_WRITE" ∷ [])) ∷ ("granted", strs []) ∷ []))

refused_access_changes_nothing_example :
    (run_pipeline scoped_vendor scoped_payments args plain_run
      ≡ (err scope_refused, after_selection))
    × (after_selection.hooks.store ≡ plain_run.hooks.store)
unfolding gate assert_enabled blocked_by blocked_parent parent first_unmet requires Dict.get
    select_fault select_request is_enabled
refused_access_changes_nothing_example =
    refused_access_changes_nothing scoped_vendor scoped_payments args "bearer" plain_run
      after_selection scope_refused refl refl refl refl
      (inr (granted, refl, "PAYMENTS_WRITE", refl, refl, refl))

-- A vendor that reads faults from a header.
abbrev magic_vendor : Vendor
magic_vendor = record vendor {
  magic =
      some (record {
        prefix = "chaos:";
        body_paths = [];
        query_params = [];
        headers = "x-chaos" ∷ [];
      });
}

abbrev chaos_args : HandlerArgs
chaos_args = record args {
  req = record payment_request { headers = ("x-chaos", "chaos:malformed_body:commit=after") ∷ [] };
}

abbrev drawn : ChaosDecision
drawn = overlay "malformed_body" (("commit", "after") ∷ [])

commit_after_leaves_nothing_example :
    SameState chaos_run.hooks.store
      (run_pipeline magic_vendor payments chaos_args chaos_run).1.hooks.store
unfolding select_fault select_request select_open in_band_values extract_magic read_candidates
    read_candidate candidates body_candidates query_candidates header_candidates get_header lower_is
    starts_with chars_from size_of split_on add_pairs add_pair cut_at Dict.put Dict.get is_enabled
    blocked_by blocked_parent parent first_unmet requires commit_mode is_commit_fault has_phase
commit_after_leaves_nothing_example =
    commit_after_leaves_nothing magic_vendor payments chaos_args chaos_run
      (select_fault magic_vendor payments chaos_args.req chaos_run).1 drawn refl
      (record { journal_fits = room; records_fit = room; keyed = tt; unique = tt }) refl refl
  where
    room : 0 ≤ 10000
    room = omega arith
