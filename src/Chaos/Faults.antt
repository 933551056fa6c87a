-- ===== src/Chaos/Faults.antt =====
-- The built-in faults of core/chaos/rules.py, as data.
use vendorfake.Prelude.{String, Option, none, some, List, [], ◌∷◌}
use vendorfake.Dict.{Dict}
use vendorfake.Json.{Value, str, document}
use vendorfake.Chaos.Rules.{ChaosScope, request, webhook}

pub data FaultProvenance : Type 0 where
  vendor transport : FaultProvenance

-- When a fault fires, relative to the handler.
pub data FaultPhase : Type 0 where
  at_request at_handler at_response at_delivery : FaultPhase

pub record FaultSpec : Type 0 where
  pub name : String
  pub scope : ChaosScope
  pub summary : String
  pub provenance : FaultProvenance
  pub phase : FaultPhase
  pub params : Option String

abbrev pub scope_text : ChaosScope → String
scope_text request = "request"
scope_text webhook = "webhook"

abbrev pub provenance_text : FaultProvenance → String
provenance_text vendor = "vendor"
provenance_text transport = "transport"

abbrev pub phase_text : FaultPhase → String
phase_text at_request = "request"
phase_text at_handler = "handler"
phase_text at_response = "response"
phase_text at_delivery = "delivery"

abbrev pub params_field : Option String → Dict Value
params_field none = []
params_field (some text) = ("params", str text) ∷ []

-- `FaultSpec.as_json`
unfoldable pub fault_json : FaultSpec → Value
fault_json f = document (
    ("name", str f.name)
    ∷ ("scope", str (scope_text f.scope))
    ∷ ("summary", str f.summary)
    ∷ ("provenance", str (provenance_text f.provenance))
    ∷ ("phase", str (phase_text f.phase))
    ∷ params_field f.params)

abbrev fault_spec :
    String → ChaosScope → String → FaultProvenance → FaultPhase → Option String → FaultSpec
fault_spec name scope summary provenance phase params = record {
  name = name;
  scope = scope;
  summary = summary;
  provenance = provenance;
  phase = phase;
  params = params;
}

-- `BUILTIN_FAULTS`
abbrev pub builtin_faults : List FaultSpec
builtin_faults =
    fault_spec "rate_limit" request "Reject the request as rate limited." vendor at_request
      (some "retry_after_seconds?")
    ∷ fault_spec "server_error" request "Fail the request with a vendor-shaped 5xx." vendor
        at_request none
    ∷ fault_spec "unavailable" request "Fail the request as temporarily unavailable." vendor
        at_request none
    ∷ fault_spec "timeout" request "Stall the request, then fail it." vendor at_request
        (some "delay_ms (default 100)")
    ∷ fault_spec "token_expiry" request
        "Treat the caller token as expired mid-flow, without touching stored state." vendor
        at_request none
    ∷ fault_spec "refresh_rejected" request
        "Reject the request as the vendor rejects an unknown, used or expired refresh token: its own 401 shape, without touching stored state."
        vendor at_request (some "detail? (overrides the message)")
    ∷ fault_spec "webhook.duplicate" webhook "Deliver the same event body more than once." vendor
        at_delivery (some "copies (default 1 extra)")
    ∷ fault_spec "webhook.out_of_order" webhook
        "Hold this event until the next one has been delivered." vendor at_delivery none
    ∷ fault_spec "webhook.drop_ack" webhook
        "Ignore a successful subscriber response so the retry schedule runs." vendor at_delivery
        none
    ∷ fault_spec "webhook.delay" webhook "Delay delivery." vendor at_delivery (some "delay_ms")
    ∷ fault_spec "webhook.drop" webhook
        "Silently swallow the delivery: recorded as dropped, never sent to the subscriber. Filter with match.event_type."
        vendor at_delivery none
    ∷ fault_spec "malformed_body" request
        "Replace a successful response's body with something the vendor's own schema forbids."
        transport at_response
        (some
          "mode (invalid_json|html|empty|truncate), status (default 200; html defaults 502), commit (before|after, default before)")
    ∷ fault_spec "body_mutation" request
        "Apply RFC 6901 JSON-pointer operations to a successful JSON response body, after the handler ran."
        transport at_response
        (some "ops (list of {op, pointer, value?, as?}), commit (before|after, default before)")
    ∷ fault_spec "connection_reset" request
        "Drop the connection after the response starts, before it completes." transport at_response
        (some "commit (before|after, default before)")
    ∷ fault_spec "empty_response" request
        "Drop the connection as close to before any bytes as the binding can manage." transport
        at_response (some "commit (before|after, default before)")
    ∷ fault_spec "slow_body" request
        "Stream a successful response body in chunks, with a delay between them." transport
        at_response (some "chunk_bytes (default 64), chunk_delay_ms (default 100)")
    ∷ fault_spec "authorize_denied" request
        "The merchant declines on the consent screen: the authorize route redirects with error=access_denied and state passed through (the vendor's documented shape where one is published, RFC 6749 s4.1.2.1 elsewhere) and mints no code."
        vendor at_handler none
    ∷ []
