-- ===== src/Unit/Handle.antt =====
-- `Unit.handle` and `_finish` of core/kernel/unit.py.
use vendorfake.Prelude.{
  String, Bool, true, false, not, ◌&&◌, Option, none, some, List, [], ◌∷◌, ltb, if◌then◌else◌,
}
use vendorfake.Text.{text_eq}
use vendorfake.Dict
use vendorfake.Json.{strs, document, null}
use vendorfake.Errors.{
  Result, ok, err, Error, unit_error, method_not_allowed, internal as internal_error,
}
use vendorfake.Chaos.Faults.{at_response}
use vendorfake.Router.Defs.{
  Compiled, key, MatchOutcome, matched, method_not_allowed as other_method, no_route, find_route,
  is_control_path,
}
use vendorfake.Webhooks.State.{Dispatcher}
use vendorfake.Unit.Requests.{RequestRecord, record_request}
use vendorfake.Unit.Access.{control_access_error}
use vendorfake.Unit.RequestFaults.{has_phase}
use vendorfake.Unit.ResponseFaults.{apply_response_fault}
use vendorfake.Unit.State.{
  UnitRequest, UnitResponse, Endpoint, Trace, new_trace, Run, UnitState, Vendor,
}
use vendorfake.Unit.Pipeline.{is_unit_error}
use vendorfake.Unit.Stages.{run_pipeline}

-- `REQUEST_ID_HEADER`
abbrev pub request_id_header : String
request_id_header = "x-unit-request-id"

abbrev pub map_endpoint : {A : Type 0} → (Endpoint → A) → Option Endpoint → Option A
map_endpoint f none = none
map_endpoint f (some e) = some (f e)

abbrev pub flat_operation : Option Endpoint → Option String
flat_operation none = none
flat_operation (some e) = e.operation_id

abbrev pub is_some : Option Endpoint → Bool
is_some none = false
is_some (some e) = true

abbrev pub is_internal : Option Endpoint → Bool
is_internal none = false
is_internal (some e) = e.route.internal

-- `deprived`: the answer was not handed over cleanly.
abbrev pub is_deprived : Trace → Bool
is_deprived t =
    t.response_fault_attempted
    && elim t.decision [ none ↦ true | some c ↦ not (text_eq c.fault "slow_body") ]

-- The record of `_finish`.
unfoldable pub request_record : UnitRequest → UnitResponse → Option Endpoint → Trace → RequestRecord
request_record req res e t =
    let committed = ltb t.journal_seq_before t.journal_seq_after in
    record {
      id = req.id;
      received_at = req.received_at;
      method = req.method;
      path = req.path;
      route = map_endpoint (λ e. key e.route) e;
      operation_id = flat_operation e;
      status = res.status;
      matched = is_some e;
      fault = t.fault;
      rule_id = t.rule_id;
      committed_journal_seq = if committed then some t.journal_seq_after else none;
      discarded_mutation = committed && is_deprived t;
      fault_commit = if t.response_fault_attempted then t.fault_commit else none;
    }

module _ (x : Vendor) where
  abbrev pub decorated : Option Endpoint → UnitRequest → UnitResponse → Dispatcher → UnitResponse
  decorated e req res d =
      let named = Dict.put res.headers request_id_header req.id in
      record res {
        headers = if is_some e && not (is_internal e) then x.decorate named d req else named;
      }

  -- `_finish`
  unfoldable pub finish :
      UnitRequest → UnitResponse → Option Endpoint → Trace → UnitState → UnitResponse × UnitState
  unfolding request_record
  finish req res e t u = (
    decorated e req res u.hooks,
    if not (is_internal e) && not (is_control_path req.path)
        then record u { requests = record_request (request_record req res e t) u.requests }
        else u,
  )

  -- `except UnitError`: an error is still an answer that an armed response fault may corrupt.
  unfoldable pub corrupt_error : Trace → UnitResponse → Dispatcher → UnitResponse × Trace
  corrupt_error t shaped d = elim t.decision [
    | none ↦ (shaped, t)
    | some c ↦
        if not t.response_fault_attempted && has_phase at_response c.fault
        then (
          elim (apply_response_fault x.faults.parse_float x.answers c shaped) [
            | ok res ↦ res
            | err e ↦ x.shape e d
          ],
          record t { response_fault_attempted = true },
        )
        else (shaped, t)
  ]

  -- The two `except` clauses of `handle`.
  unfoldable pub answer_error : Error → Run → UnitResponse × Trace
  unfolding corrupt_error
  answer_error e r =
      if is_unit_error e
      then corrupt_error r.trace (x.shape e r.hooks) r.hooks
      else (x.shape (unit_error internal_error none null) r.hooks, r.trace)

  -- What follows the pipeline in `handle`.
  unfoldable pub conclude :
      UnitRequest
      → Option Endpoint
      → Result UnitResponse × Run
      → UnitState
      → UnitResponse × UnitState
  unfolding answer_error finish
  conclude req e (result, r) u =
      let u' = record u { hooks = r.hooks } in
      elim result [
        | ok res ↦ finish req res e r.trace u'
        | err raised ↦ let (res, t) = answer_error raised r in finish req res e t u'
      ]

  abbrev pub new_run : UnitState → Run
  new_run u = record { hooks = u.hooks; trace = new_trace }

  -- What `handle` does with what the router found.
  unfoldable pub serve : UnitRequest → MatchOutcome → UnitState → UnitResponse × UnitState
  unfolding conclude finish
  serve req (matched route params) u =
      let e = x.endpoint route in
      conclude req (some e)
        (run_pipeline x e (record { req = req; params = params; auth = none; fault = none })
          (new_run u))
        u
  serve req (other_method allowed) u =
      conclude req none
        (
          err (unit_error method_not_allowed none (document (("allowed", strs allowed) ∷ []))),
          new_run u,
        )
        u
  serve req no_route u = finish req (x.not_found req u.hooks) none new_trace u

  -- The routing of `handle`.
  unfoldable pub route_request : List Compiled → UnitRequest → UnitState → UnitResponse × UnitState
  unfolding conclude serve
  route_request table req u = elim (find_route x.unquote table req.method req.path) [
    | err e ↦ conclude req none (err e, new_run u) u
    | ok outcome ↦ serve req outcome u
  ]

  -- `handle`
  unfoldable pub handle :
      Option String → List Compiled → UnitRequest → UnitState → UnitResponse × UnitState
  unfolding route_request conclude
  handle token table req u = elim (control_access_error req.method req.path req.headers token) [
    | some refused ↦ conclude req none (err refused, new_run u) u
    | none ↦ route_request table req u
  ]
