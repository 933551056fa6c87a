-- ===== src/Unit/RequestFaults.antt =====
-- The faults of a request, core/chaos/faults.py: their phases, `commit_mode` and
-- `apply_request_fault`.
use vendorfake.Prelude.{
  ℕ, String, Bool, true, false, not, ◌&&◌, ◌||◌, Option, none, some, [], ◌∷◌, any, ltb,
  if◌then◌else◌,
}
use vendorfake.Text.{text_eq}
use vendorfake.Dict
use vendorfake.Dict.{Dict}
use vendorfake.Json.{ℤ, pos, Value, null, int, str, document}
use vendorfake.Numbers.{as_int, as_float, at_least_zero}
use vendorfake.Errors.{
  Result, ok, err, Error, unit_error, rate_limited, internal, unavailable, timeout, token_expired,
  unauthorized, invalid_value,
}
use vendorfake.Action.{Action}
use vendorfake.Clock.Defs.{real, virtual}
use vendorfake.Chaos.Faults.{
  FaultPhase, at_request, at_handler, at_response, at_delivery, FaultSpec, builtin_faults,
}
use vendorfake.Chaos.Engine.{ChaosDecision}
use vendorfake.Unit.Requests.{CommitMode, before, after}
use vendorfake.Webhooks.State.{Dispatcher, clock_of}

abbrev pub same_phase : FaultPhase → FaultPhase → Bool
same_phase at_request at_request = true
same_phase at_handler at_handler = true
same_phase at_response at_response = true
same_phase at_delivery at_delivery = true
same_phase _ _ = false

-- `fault in {name for name, phase in FAULT_PHASE.items() if phase == ...}`
unfoldable pub has_phase : FaultPhase → String → Bool
has_phase phase fault =
    any (λ (f : FaultSpec). text_eq f.name fault && same_phase f.phase phase) builtin_faults

-- `COMMIT_FAULTS`
unfoldable pub is_commit_fault : String → Bool
unfolding has_phase
is_commit_fault fault = has_phase at_response fault && not (text_eq fault "slow_body")

abbrev pub bad_commit : Error
bad_commit = unit_error invalid_value (some "params.commit") null

-- `commit_mode`
unfoldable pub commit_mode : ChaosDecision → Result CommitMode
unfolding is_commit_fault
commit_mode c = elim (Dict.get c.params "commit") [
  | none ↦ ok before
  | some raw ↦ if not (is_commit_fault c.fault) then err bad_commit else elim raw [
    | str t ↦
        if text_eq t "after"
        then ok after
        else if text_eq t "before"
        then ok before
        else err bad_commit
    | other ↦ err bad_commit
  ]
]

-- `RequestMoment`
pub data RequestMoment : Type 0 where
  pre post_auth : RequestMoment

abbrev pub at_pre : RequestMoment → Bool
at_pre pre = true
at_pre post_auth = false

abbrev pub rule_info : String → Value
rule_info rule = document (("chaos_rule", str rule) ∷ [])

-- What `apply_request_fault` reads besides the decision: `float` on a text, and what the timers that
-- `Clock.advance` fires make of the dispatcher.
pub record FaultContext : Type 0 where
  pub parse_float : String → Option ℤ
  pub advance : ℕ → Dispatcher → Dispatcher

-- `_delay_owed`: a virtual clock is moved at once.
unfoldable pub pay_delay : FaultContext → ℕ → Dispatcher → Dispatcher
pay_delay x delay d =
    if ltb 0 delay then elim (clock_of d).mode [ virtual ↦ x.advance delay d | real ↦ d ] else d

-- `apply_request_fault`
unfoldable pub apply_request_fault :
    FaultContext → RequestMoment → ChaosDecision → Action Dispatcher (Unit {0})
unfolding has_phase pay_delay
apply_request_fault x moment c d =
    if has_phase at_response c.fault || has_phase at_handler c.fault
    then (ok tt, d)
    else if text_eq c.fault "token_expiry"
    then (if at_pre moment
        then (ok tt, d)
        else (err (unit_error token_expired none (rule_info c.rule_id)), d))
    else if not (at_pre moment)
    then (ok tt, d)
    else if text_eq c.fault "rate_limit"
    then (
      err (
          unit_error rate_limited none (
            document (
              ("chaos_rule", str c.rule_id)
              ∷ (
                "retry_after_seconds",
                int (as_int x.parse_float (Dict.get c.params "retry_after_seconds") (pos 1)),
              )
              ∷ []))),
      d,
    )
    else if text_eq c.fault "server_error"
    then (err (unit_error internal none (rule_info c.rule_id)), d)
    else if text_eq c.fault "unavailable"
    then (err (unit_error unavailable none (rule_info c.rule_id)), d)
    else if text_eq c.fault "timeout"
    then (let delay = as_float x.parse_float (Dict.get c.params "delay_ms") (pos 100) in
        (
          err (
              unit_error timeout none
                (document (("chaos_rule", str c.rule_id) ∷ ("delay_ms", int delay) ∷ []))),
          pay_delay x (at_least_zero delay) d,
        ))
    else if text_eq c.fault "refresh_rejected"
    then (err (unit_error unauthorized (some "refresh_token") (rule_info c.rule_id)), d)
    else (ok tt, d)
