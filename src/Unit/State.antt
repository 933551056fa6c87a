-- ===== src/Unit/State.antt =====
-- What `Unit.handle` (core/kernel/unit.py) works with: requests, answers, routes and the trace of
-- one request, and what it asks of the vendor.
use vendorfake.Prelude.{ℕ, String, Bool, false, Option, none, List}
use vendorfake.Dict.{Dict}
use vendorfake.Json.{Value}
use vendorfake.Errors.{Result, Error}
use vendorfake.Chaos.Engine.{ChaosDecision}
use vendorfake.Router.Defs.{Route}
use vendorfake.Magic.{MagicTriggerSpec}
use vendorfake.Webhooks.State.{Dispatcher}
use vendorfake.Unit.Requests.{CommitMode, RequestLog}
use vendorfake.Unit.RequestFaults.{FaultContext}
use vendorfake.Unit.Pointer.{AnswerContext}

-- `UnitRequest`; the body's bytes are their text.
pub record UnitRequest : Type 0 where
  pub id : String
  pub method : String
  pub path : String
  pub query : Dict String
  pub headers : Dict String
  pub raw_body : String
  pub received_at : String

-- `TransportDirective`; the chunk's bytes and the delay between two of them.
pub data TransportDirective : Type 0 where
  connection_reset empty_response : TransportDirective
  slow_body : ℕ → ℕ → TransportDirective

-- `UnitResponse`; a body's bytes are characters, one each.
pub record UnitResponse : Type 0 where
  pub status : ℕ
  pub headers : Dict String
  pub body : String
  pub delay_ms : ℕ
  pub transport : Option TransportDirective

-- `IdempotencySpec.on_mismatch`
pub data Mismatch : Type 0 where
  conflict replay : Mismatch

pub record IdempotencySpec : Type 0 where
  pub key_path : String
  pub scope : String
  pub required : Bool
  pub on_mismatch : Mismatch

pub record AuthResult : Type 0 where
  pub principal_id : String
  pub scopes : List String
  pub token_id : Option String

pub record ArmedFault : Type 0 where
  pub name : String
  pub rule_id : String
  pub params : Dict Value

-- `HandlerArgs`, without the context, which the handler gets as its state.
pub record HandlerArgs : Type 0 where
  pub req : UnitRequest
  pub params : Dict String
  pub auth : Option AuthResult
  pub fault : Option ArmedFault

-- What a handler leaves: its normalized answer or what it raised, and `args.fault_consumed`.
pub record Handled : Type 0 where
  pub result : Result UnitResponse
  pub consumed : Bool

-- The fields of a `Route` that the router does not read. A handler may change the store, the
-- dispatcher and all that is behind it.
pub record Endpoint : Type 0 where
  pub route : Route
  pub operation_id : Option String
  pub auth : Option String
  pub scopes : List String
  pub idempotency : Option IdempotencySpec
  pub handler : HandlerArgs → Dispatcher → Handled × Dispatcher

-- `_Trace`
pub record Trace : Type 0 where
  pub fault : Option String
  pub rule_id : Option String
  pub journal_seq_before : ℕ
  pub journal_seq_after : ℕ
  pub decision : Option ChaosDecision
  pub response_fault_attempted : Bool
  pub fault_commit : Option CommitMode

abbrev pub new_trace : Trace
new_trace = record {
  fault = none;
  rule_id = none;
  journal_seq_before = 0;
  journal_seq_after = 0;
  decision = none;
  response_fault_attempted = false;
  fault_commit = none;
}

-- The state of one run of the pipeline.
pub record Run : Type 0 where
  pub hooks : Dispatcher
  pub trace : Trace

-- The state of a `Unit` between requests.
pub record UnitState : Type 0 where
  pub hooks : Dispatcher
  pub requests : RequestLog

-- The vendor and the standard library behind the unit: the endpoint of a route object, the body
-- as fields (`HandlerArgs.body`), `auth.resolve`, the digest of a body, base64 of bytes, what
-- the faults of answers read, the vendor's shapes of an error and of a
-- request without a route (with the headers that `_shape` and `_unmatched` add), `decorate`, and
-- percent-decoding.
pub record Vendor : Type 0 where
  pub endpoint : Route → Endpoint
  pub magic : Option MagicTriggerSpec
  pub read_body : UnitRequest → Result Value
  pub resolve : HandlerArgs → String → Dispatcher → Result AuthResult
  pub digest_of : Value → String
  pub b64url_encode : String → String
  pub b64url_decode : String → String
  pub faults : FaultContext
  pub answers : AnswerContext
  pub shape : Error → Dispatcher → UnitResponse
  pub not_found : UnitRequest → Dispatcher → UnitResponse
  pub decorate : Dict String → Dispatcher → UnitRequest → Dict String
  pub unquote : String → Option String
