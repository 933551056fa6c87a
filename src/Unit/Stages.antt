-- ===== src/Unit/Stages.antt =====
-- The stages of `_run_pipeline`, core/kernel/unit.py, in their order.
use vendorfake.Prelude.{String, true, not, Option, none, some, List, [], ◌∷◌, keep, if◌then◌else◌}
use vendorfake.Text.{mem_text}
use vendorfake.Json.{Value, null, strs, document}
use vendorfake.Errors.{Result, ok, err, unit_error, forbidden_scope}
use vendorfake.Action.{Action, and_then}
use vendorfake.Clock.Defs.{iso_ms}
use vendorfake.Registry.Defs.{assert_enabled}
use vendorfake.Chaos.Faults.{at_handler, at_response}
use vendorfake.Chaos.Rules.{request}
use vendorfake.Chaos.Engine.{ChaosSubject, ChaosDecision}
use vendorfake.Chaos.Selector.{MagicExtraction, select_request}
use vendorfake.Router.Defs.{key}
use vendorfake.Magic.{extract_magic}
use vendorfake.Webhooks.State.{clock_of}
use vendorfake.Unit.RequestFaults.{
  has_phase, is_commit_fault, commit_mode, RequestMoment, pre, post_auth, apply_request_fault,
}
use vendorfake.Unit.State.{
  UnitRequest, UnitResponse, AuthResult, HandlerArgs, Endpoint, Trace, Run, Vendor,
}
use vendorfake.Unit.ResponseFaults.{apply_response_fault}
use vendorfake.Unit.Pipeline.{within, set_trace, armed_fault, Lookup, look_up, run_handler}

-- Step 2: the capability gate.
unfoldable pub gate : Endpoint → Action Run (Unit {0})
gate e r = (assert_enabled r.hooks.registry e.route.capability (some (key e.route)), r)

abbrev pub subject_of : Endpoint → UnitRequest → ChaosSubject
subject_of e req = record {
  scope = request;
  route_key = some (key e.route);
  method = some req.method;
  path = some req.path;
  capability = some e.route.capability;
  event_type = none;
  headers = req.headers;
  body_text = some req.raw_body;
}

abbrev pub or_null : Result Value → Value
or_null (ok body) = body
or_null (err e) = null

module _ (x : Vendor) where
  -- `_in_band`: an unreadable body has no values.
  unfoldable pub in_band_values : UnitRequest → MagicExtraction
  in_band_values req = extract_magic x.magic req.query req.headers (or_null (x.read_body req))

  -- Step 3, the selection; the engine reads the unit's clock.
  unfoldable pub select_fault : Endpoint → UnitRequest → Action Run (Option ChaosDecision)
  unfolding in_band_values
  select_fault e req r =
      elim (select_request r.hooks.registry (subject_of e req) (some (in_band_values req))
        (record (r.hooks.engine) { now_iso = iso_ms (clock_of r.hooks) })) [
          | err raised ↦ (err raised, r)
          | ok (selection, engine) ↦
              (ok selection.decision, record r { hooks = record (r.hooks) { engine = engine } })
        ]

  -- Step 3, what is noted of a decision before it is applied.
  unfoldable pub note_decision : Option ChaosDecision → Action Run (Unit {0})
  note_decision none r = (ok tt, r)
  note_decision (some c) r =
      let drawn : Trace = record (r.trace) { decision = some c } in
      let noted : Trace =
        if has_phase at_handler c.fault
        then drawn
        else record drawn { fault = some c.fault; rule_id = some c.rule_id } in
      elim (commit_mode c) [
        | err raised ↦ (err raised, record r { trace = noted })
        | ok mode ↦ (
          ok tt,
          record r {
            trace =
                if is_commit_fault c.fault
                then record noted { fault_commit = some mode }
                else noted;
          },
        )
      ]

  -- Steps 4 and 6.
  unfoldable pub request_fault : RequestMoment → Option ChaosDecision → Action Run (Unit {0})
  unfolding within
  request_fault moment none r = (ok tt, r)
  request_fault moment (some c) r = within (apply_request_fault x.faults moment c) r

  abbrev pub missing_scopes : Endpoint → AuthResult → List String
  missing_scopes e auth = keep (λ scope. not (mem_text scope auth.scopes)) e.scopes

  abbrev pub checked_scopes : AuthResult → List String → Result (Option AuthResult)
  checked_scopes auth [] = ok (some auth)
  checked_scopes auth (scope ∷ scopes) = err (
      unit_error forbidden_scope none
        (document (("missing", strs (scope ∷ scopes)) ∷ ("granted", strs auth.scopes) ∷ [])))

  -- Step 5.
  unfoldable pub authorize : Endpoint → HandlerArgs → Action Run (Option AuthResult)
  authorize e args r = elim e.auth [
    | none ↦ (ok none, r)
    | some scheme ↦ elim (x.resolve args scheme r.hooks) [
      | err raised ↦ (err raised, r)
      | ok auth ↦ (checked_scopes auth (missing_scopes e auth), r)
    ]
  ]

  -- Step 8, whole: the replayed answer, or the handler's.
  unfoldable pub answer : Endpoint → HandlerArgs → Lookup → Action Run UnitResponse
  unfolding run_handler
  answer e args found r = elim found.replayed [
    | some replayed ↦ (ok replayed, r)
    | none ↦ run_handler x e args found r
  ]

  -- Step 9.
  unfoldable pub response_fault : Option ChaosDecision → UnitResponse → Action Run UnitResponse
  response_fault none res r = (ok res, r)
  response_fault (some c) res r =
      if has_phase at_response c.fault
      then (
        apply_response_fault x.faults.parse_float x.answers c res,
        set_trace (λ t. record t { response_fault_attempted = true }) r,
      )
      else (ok res, r)

  -- Steps 7 to 9.
  unfoldable pub respond : Endpoint → HandlerArgs → Option ChaosDecision → Action Run UnitResponse
  unfolding look_up answer response_fault and_then
  respond e args decision =
      and_then (look_up x e args.req)
        (λ found. and_then (answer e args found) (λ res. response_fault decision res))

  -- Steps 4 to 9.
  unfoldable pub proceed : Endpoint → HandlerArgs → Option ChaosDecision → Action Run UnitResponse
  unfolding request_fault authorize respond and_then
  proceed e args decision = and_then (request_fault pre decision) (λ before.
      and_then (authorize e args) (λ auth.
        and_then (request_fault post_auth decision)
          (λ behind. respond e (record args { auth = auth }) decision)))

  -- An internal route: only the handler.
  unfoldable pub run_internal : Endpoint → HandlerArgs → Action Run UnitResponse
  run_internal e args r = let (h, d) = e.handler args r.hooks in (h.result, record r { hooks = d })

  -- Steps 3 to 9, of a decision that is drawn.
  unfoldable pub faulted : Endpoint → HandlerArgs → Option ChaosDecision → Action Run UnitResponse
  unfolding note_decision proceed and_then
  faulted e args decision =
      and_then (note_decision decision)
        (λ noted. proceed e (record args { fault = armed_fault decision }) decision)

  -- A vendor's route.
  unfoldable pub run_vendor : Endpoint → HandlerArgs → Action Run UnitResponse
  unfolding gate select_fault faulted and_then
  run_vendor e args =
      and_then (gate e)
        (λ opened. and_then (select_fault e args.req) (λ decision. faulted e args decision))

  -- `_run_pipeline`
  unfoldable pub run_pipeline : Endpoint → HandlerArgs → Action Run UnitResponse
  unfolding run_internal run_vendor
  run_pipeline e args r = if e.route.internal then run_internal e args r else run_vendor e args r
