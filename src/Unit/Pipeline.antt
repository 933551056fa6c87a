-- ===== src/Unit/Pipeline.antt =====
-- `_run_pipeline`, `_replay`, `_settle_handler_fault` and `_warn_unconsumed` of core/kernel/unit.py.
use vendorfake.Prelude.{
  ℕ, String, Bool, true, false, not, ◌&&◌, Option, none, some, [], ◌∷◌, leb, ltb, if◌then◌else◌,
}
use vendorfake.Text.{text_eq}
use vendorfake.Dict
use vendorfake.Dict.{Dict}
use vendorfake.Json.{Value, str, null, document}
use vendorfake.Errors.{Result, ok, err, Error, unit_error, missing_field, idempotency_conflict}
use vendorfake.Action.{Action}
use vendorfake.Clock.Defs.{iso_ms}
use vendorfake.Chaos.Faults.{at_handler}
use vendorfake.Chaos.Engine.{ChaosDecision, refund}
use vendorfake.Store.State.{IdempotencyRecord}
use vendorfake.Store.Idempotency.{get_idempotent, put_idempotent}
use vendorfake.Store.Snapshot.{StoreSnapshot, snapshot, restore}
use vendorfake.Paths.{dot_get}
use vendorfake.Webhooks.State.{Dispatcher, clock_of}
use vendorfake.Unit.Requests.{CommitMode, after}
use vendorfake.Unit.RequestFaults.{has_phase}
use vendorfake.Unit.ResponseFaults.{stamp_mechanism}
use vendorfake.Unit.State.{
  UnitRequest, UnitResponse, conflict, replay, IdempotencySpec, ArmedFault, HandlerArgs, Handled,
  Endpoint, Trace, Run, Vendor,
}

-- An action of the dispatcher within a run.
unfoldable pub within : {A : Type 0} → Action Dispatcher A → Action Run A
within m r = let (a, hooks) = m r.hooks in (a, record r { hooks = hooks })

-- A test that may raise and changes nothing.
abbrev pub check : {A : Type 0} → Result A → Action Run A
check result r = (result, r)

abbrev pub set_trace : (Trace → Trace) → Run → Run
set_trace f r = record r { trace = f r.trace }

-- `_replay`
unfoldable pub replay_stored :
    (String → String) → IdempotencySpec → String → String → IdempotencyRecord → Result UnitResponse
replay_stored decode idem idem_key digest stored =
    let same_body = text_eq stored.request_digest digest in
    let stamped = Dict.put stored.headers "x-unit-idempotent-replay" "true" in
    let answer : Dict String → UnitResponse = λ headers. record {
      status = stored.status;
      headers = headers;
      body = decode stored.body_b64;
      delay_ms = 0;
      transport = none;
    } in
    if same_body then ok (answer stamped) else elim idem.on_mismatch [
      | conflict ↦ err (
          unit_error idempotency_conflict (some idem.key_path)
            (document (("key", str idem_key) ∷ ("scope", str idem.scope) ∷ [])))
      | replay ↦ ok (answer (Dict.put stamped "x-unit-idempotent-ignored-body" "true"))
    ]

-- What step 7 finds: the key, the digest of the body and a stored answer.
pub record Lookup : Type 0 where
  pub idem_key : Option String
  pub request_digest : String
  pub replayed : Option UnitResponse

abbrev pub no_key : Lookup
no_key = record { idem_key = none; request_digest = ""; replayed = none }

-- `isinstance(raw, str) and raw`
abbrev pub key_text : Option Value → Option String
key_text (some (str t)) = if text_eq t "" then none else some t
key_text _ = none

-- `args.fault`, set at step 3.
abbrev pub armed_fault : Option ChaosDecision → Option ArmedFault
armed_fault none = none
armed_fault (some c) =
    if has_phase at_handler c.fault
    then some (record { name = c.fault; rule_id = c.rule_id; params = c.params })
    else none

abbrev pub is_after : Option CommitMode → Bool
is_after (some after) = true
is_after _ = false

abbrev pub is_unit_error : Error → Bool
is_unit_error (unit_error kind field info) = true
is_unit_error _ = false

-- `_warn_unconsumed`: the budget of a rule that did not fire is given back.
unfoldable pub refund_unconsumed : Option ArmedFault → Bool → Dispatcher → Dispatcher
refund_unconsumed none consumed d = d
refund_unconsumed (some armed) true d = d
refund_unconsumed (some armed) false d = record d { engine = refund armed.rule_id d.engine }

-- The muting of store and dispatcher around a handler, taken off also when it raises.
abbrev pub set_muted : Bool → Dispatcher → Dispatcher
set_muted on d = record d { store = record (d.store) { muted = on }; muted = on }

-- The handler's call at step 8, under `commit: after` muted.
unfoldable pub call_handler : Endpoint → HandlerArgs → Bool → Dispatcher → Handled × Dispatcher
call_handler e args uncommitted d =
    if uncommitted
    then (let (h, d') = e.handler args (set_muted true d) in (h, set_muted false d'))
    else e.handler args d

-- `except UnitError: self._warn_unconsumed(...)`
unfoldable pub refund_refused : Option ArmedFault → Handled → Dispatcher → Dispatcher
unfolding refund_unconsumed
refund_refused armed h d = elim h.result [
  | ok answer ↦ d
  | err e ↦ if is_unit_error e then refund_unconsumed armed h.consumed d else d
]

-- `if snapshot is not None: self._store.restore(snapshot)`
abbrev pub restore_if : Bool → StoreSnapshot → Dispatcher → Dispatcher
restore_if true snap d = record d { store = restore snap d.store }
restore_if false snap d = d

abbrev pub is_success : ℕ → Bool
is_success status = leb 200 status && ltb status 300

module _ (x : Vendor) where
  -- The idempotency record of a clean answer.
  unfoldable pub idempotency_record :
      IdempotencySpec → String → String → UnitResponse → Dispatcher → IdempotencyRecord
  idempotency_record idem idem_key digest answer d = record {
    scope = idem.scope;
    key = idem_key;
    request_digest = digest;
    status = answer.status;
    headers = answer.headers;
    body_b64 = x.b64url_encode answer.body;
    stored_at = iso_ms (clock_of d);
  }

  -- The store of a clean 2xx answer under its key.
  unfoldable pub store_answer :
      Bool → Option IdempotencySpec → Lookup → UnitResponse → Dispatcher → Dispatcher
  unfolding idempotency_record
  store_answer uncommitted none found answer d = d
  store_answer uncommitted (some idem) found answer d = elim found.idem_key [
    | none ↦ d
    | some idem_key ↦
        if not uncommitted && is_success answer.status
        then record d {
          store =
              put_idempotent (idempotency_record idem idem_key found.request_digest answer d)
                d.store;
        }
        else d
  ]

  -- `_settle_handler_fault`
  unfoldable pub settle_handler_fault :
      Option ArmedFault → Bool → UnitResponse → Action Run UnitResponse
  unfolding refund_unconsumed stamp_mechanism
  settle_handler_fault none consumed answer r = (ok answer, r)
  settle_handler_fault (some armed) false answer r =
      (ok answer, record r { hooks = refund_unconsumed (some armed) false r.hooks })
  settle_handler_fault (some armed) true answer r = (
    ok (record answer {
      headers = stamp_mechanism x.answers.quote answer.headers armed.name armed.rule_id;
    }),
    set_trace (λ t. record t { fault = some armed.name; rule_id = some armed.rule_id }) r,
  )

  -- What step 8 leaves when the handler is back: the state behind the `finally`.
  unfoldable pub after_handler : Endpoint → HandlerArgs → Run → Handled × Run
  unfolding call_handler refund_refused
  after_handler e args r =
      let uncommitted = is_after r.trace.fault_commit in
      let snap = snapshot r.hooks.store in
      let (h, d) = call_handler e args uncommitted r.hooks in
      let refunded = refund_refused args.fault h d in
      let restored = restore_if uncommitted snap refunded in
      (
        h,
        record {
          hooks = restored;
          trace = record (r.trace) {
            journal_seq_before = r.hooks.store.seq;
            journal_seq_after = if uncommitted then r.hooks.store.seq else refunded.store.seq;
          };
        },
      )

  -- What follows the handler's call at step 8.
  unfoldable pub conclude_handler :
      Endpoint → HandlerArgs → Lookup → Bool → Handled → Action Run UnitResponse
  conclude_handler e args found uncommitted h r = elim h.result [
    | err raised ↦ (err raised, r)
    | ok answer ↦
        settle_handler_fault args.fault h.consumed answer
          (record r { hooks = store_answer uncommitted e.idempotency found answer r.hooks })
  ]

  -- Step 8, of a request that is not a replay.
  unfoldable pub run_handler : Endpoint → HandlerArgs → Lookup → Action Run UnitResponse
  run_handler e args found r =
      let (h, r') = after_handler e args r in
      conclude_handler e args found (is_after r.trace.fault_commit) h r'

  -- Step 7.
  unfoldable pub look_up : Endpoint → UnitRequest → Action Run Lookup
  unfolding replay_stored
  look_up e req r = elim e.idempotency [
    | none ↦ (ok no_key, r)
    | some idem ↦ elim (x.read_body req) [
      | err raised ↦ (err raised, r)
      | ok body ↦ elim (key_text (dot_get body idem.key_path)) [
        | none ↦
            if idem.required
            then (err (unit_error missing_field (some idem.key_path) null), r)
            else (ok no_key, r)
        | some idem_key ↦
            let digest = x.digest_of body in
            elim (get_idempotent idem.scope idem_key r.hooks.store) [
              | none ↦ (
                ok (record { idem_key = some idem_key; request_digest = digest; replayed = none }),
                r,
              )
              | some stored ↦ elim (replay_stored x.b64url_decode idem idem_key digest stored) [
                | err raised ↦ (err raised, r)
                | ok answer ↦ (
                  ok (record {
                    idem_key = some idem_key;
                    request_digest = digest;
                    replayed = some answer;
                  }),
                  r,
                )
              ]
            ]
      ]
    ]
  ]
