-- ===== src/Unit/ResponseFaults.antt =====
-- The faults of an answer, core/chaos/faults.py: `apply_response_fault`.
use Prim.Native.String.{◌∷◌ as push_front, ◌++◌ as text_append}
use vendorfake.Prelude.{ℕ, zero, suc, ◌/◌, max, String, Option, none, some, if◌then◌else◌}
use vendorfake.Text.{text_eq}
use vendorfake.Dict
use vendorfake.Dict.{Dict}
use vendorfake.Json.{ℤ, pos, Value, null, str, arr, cons}
use vendorfake.Numbers.{as_int, at_least_zero}
use vendorfake.Errors.{Result, ok, err, ◌>>=◌, Error, unit_error, invalid_value}
use vendorfake.Chaos.Faults.{at_response}
use vendorfake.Chaos.Engine.{ChaosDecision}
use vendorfake.Paths.{size_of}
use vendorfake.Unit.RequestFaults.{has_phase, commit_mode}
use vendorfake.Unit.Pointer.{AnswerContext, bad_ops, apply_ops}
use vendorfake.Unit.State.{
  TransportDirective, connection_reset, empty_response, slow_body, UnitResponse,
}

-- `stamp_mechanism`, with the `quote` by which `header_text` writes the rule id.
unfoldable pub stamp_mechanism : (String → String) → Dict String → String → String → Dict String
stamp_mechanism quote headers fault rule =
    Dict.put (Dict.put headers "vendorfake-fault" fault) "vendorfake-rule" (quote rule)

-- `_HTML_ERROR_PAGE`
abbrev pub html_error_page : String
html_error_page =
    text_append "<html><head><title>Bad Gateway</title></head>"
      "<body><h1>Bad Gateway</h1><p>vendorfake: injected transport fault.</p></body></html>"

-- `body[:n]`
unfoldable pub take_text : ℕ → String → String
take_text zero text = ""
take_text (suc n) String.[] = ""
take_text (suc n) (String.◌∷◌ c s) = push_front c (take_text n s)

-- `body[:-1]`
unfoldable pub drop_last : String → String
drop_last String.[] = ""
drop_last (String.◌∷◌ c String.[]) = ""
drop_last (String.◌∷◌ c (String.◌∷◌ d s)) = push_front c (drop_last (push_front d s))

abbrev pub bad_mode : Error
bad_mode = unit_error invalid_value (some "params.mode") null

module _ (parse_float : String → Option ℤ) (x : AnswerContext) where
  -- `params.get("status")`; a status below zero is zero.
  abbrev pub status_of : ChaosDecision → ℕ → ℕ
  status_of c default =
      at_least_zero (as_int parse_float (Dict.get c.params "status") (pos default))

  abbrev pub malformed : ChaosDecision → ℕ → Dict String → String → UnitResponse → UnitResponse
  malformed c default headers body res = record {
    status = status_of c default;
    headers = stamp_mechanism x.quote headers c.fault c.rule_id;
    body = body;
    delay_ms = res.delay_ms;
    transport = none;
  }

  unfoldable pub malformed_mode : ChaosDecision → UnitResponse → String → Result UnitResponse
  unfolding take_text drop_last size_of
  malformed_mode c res mode =
      if text_eq mode "html"
      then ok
          (malformed c 502 (Dict.put res.headers "content-type" "text/html") html_error_page res)
      else if text_eq mode "empty"
      then ok
          (malformed c res.status (Dict.put res.headers "content-type" "application/json") "" res)
      else if text_eq mode "invalid_json"
      then ok (malformed c res.status res.headers (text_append (drop_last res.body) ",") res)
      else if text_eq mode "truncate"
      then ok (malformed c res.status res.headers (take_text (size_of res.body / 2) res.body) res)
      else err bad_mode

  -- `_malformed_body`, by `params.get("mode")`
  unfoldable pub malformed_body : ChaosDecision → UnitResponse → Option Value → Result UnitResponse
  unfolding malformed_mode
  malformed_body c res (some (str mode)) = malformed_mode c res mode
  malformed_body c res mode = err bad_mode

  unfoldable pub mutated : ChaosDecision → UnitResponse → Value → UnitResponse
  mutated c res body = record {
    status = res.status;
    headers = stamp_mechanism x.quote res.headers c.fault c.rule_id;
    body = x.dump_json body;
    delay_ms = res.delay_ms;
    transport = none;
  }

  -- `_body_mutation`, by `params.get("ops")`
  unfoldable pub body_mutation : ChaosDecision → UnitResponse → Option Value → Result UnitResponse
  unfolding apply_ops mutated
  body_mutation c res (some (arr (cons op ops))) = elim (x.parse_json res.body) [
    | none ↦ err bad_ops
    | some body ↦ apply_ops x body (cons op ops) >>= λ changed. ok (mutated c res changed)
  ]
  body_mutation c res ops = err bad_ops

  unfoldable pub directive_of : ChaosDecision → TransportDirective
  directive_of c =
      if text_eq c.fault "connection_reset"
      then connection_reset
      else if text_eq c.fault "empty_response"
      then empty_response
      else slow_body
          (max 1 (at_least_zero (as_int parse_float (Dict.get c.params "chunk_bytes") (pos 64))))
          (at_least_zero (as_int parse_float (Dict.get c.params "chunk_delay_ms") (pos 100)))

  -- `_directive`
  unfoldable pub directive : ChaosDecision → UnitResponse → UnitResponse
  unfolding directive_of
  directive c res = record res {
    headers = stamp_mechanism x.quote res.headers c.fault c.rule_id;
    transport = some (directive_of c);
  }

  unfoldable pub corrupted : ChaosDecision → UnitResponse → Result UnitResponse
  unfolding malformed_body body_mutation directive
  corrupted c res =
      if text_eq c.fault "malformed_body"
      then malformed_body c res (Dict.get c.params "mode")
      else if text_eq c.fault "body_mutation"
      then body_mutation c res (Dict.get c.params "ops")
      else ok (directive c res)

  -- `apply_response_fault`
  unfoldable pub apply_response_fault : ChaosDecision → UnitResponse → Result UnitResponse
  unfolding has_phase commit_mode corrupted
  apply_response_fault c res =
      if has_phase at_response c.fault then (commit_mode c >>= λ mode. corrupted c res) else ok res
