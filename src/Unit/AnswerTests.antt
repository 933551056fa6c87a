-- ===== src/Unit/AnswerTests.antt =====
-- Faults of answers, core/chaos/faults.py, on small answers, and the theorems at work on them.
use Prim.Native.String.{◌∷◌ as push_front}
use vendorfake.Prelude.{String, ◌≡◌, refl, Option, none, some, [], ◌∷◌}
use vendorfake.Dict
use vendorfake.Dict.{Dict}
use vendorfake.Json.{ℤ, pos, Value, int, str, arr, strs, document, of_list, Items}
use vendorfake.Errors.{ok, err}
use vendorfake.Chaos.Engine.{ChaosDecision}
use vendorfake.Unit.Pointer.{
  AnswerContext, slash, pointer_segments, edit, change_child, apply_ops, pointer_step, set_child,
  pointer_index, set_item, items_length, apply_pointer_op, point_at, read_escapes, unescape,
  remove_child, retype, retype_target, default_retype_target, as_text,
}
use vendorfake.Unit.State.{UnitResponse, slow_body}
use vendorfake.Unit.ResponseFaults.{
  apply_response_fault, bad_mode, corrupted, malformed_body, malformed_mode, stamp_mechanism,
  take_text, directive, directive_of,
}
use vendorfake.Numbers.{as_int, as_float, padded, digits}
use vendorfake.Paths.{item, read_digits, size_of, split_on}
use vendorfake.Unit.RequestFaults.{has_phase, is_commit_fault, commit_mode, bad_commit}
use vendorfake.Unit.Laws.Pointers.{follow, Replaced, replace_lem}
use vendorfake.Unit.Laws.Escapes.{joined, pointer_segments-joined}
use vendorfake.Unit.Laws.Answers.{
  IsStamped, apply_response_fault-Stamped, apply_response_fault_intact,
}

abbrev no_number : String → Option ℤ
no_number text = none

abbrev context : AnswerContext
context = record {
  parse_json = λ text. some (document (("id", str "o1") ∷ ("tip", int (pos 5)) ∷ []));
  dump_json = λ v. "{}";
  dumps = λ v. "null";
  parse_prefix = no_number;
  quote = λ text. text;
}

abbrev order : Value
order = document (("id", str "o1") ∷ ("lines", strs ("tea" ∷ "cake" ∷ [])) ∷ [])

abbrev to_seven : Dict Value
to_seven = ("value", int (pos 7)) ∷ []

abbrev replaced_order : Value
replaced_order =
    document (("id", str "o1") ∷ ("lines", arr (of_list (str "tea" ∷ int (pos 7) ∷ []))) ∷ [])

replaces_an_item :
    edit (change_child context "replace" to_seven) order ("lines" ∷ "1" ∷ []) ≡ ok replaced_order
unfolding edit change_child pointer_step set_child pointer_index set_item item items_length
    read_digits Dict.get Dict.put
replaces_an_item = refl

replace_lem_example :
    Replaced
      (edit (change_child context "replace" to_seven) order ("lines" ∷ "1" ∷ []))
      (int (pos 7))
      ("lines" ∷ "1" ∷ [])
      (follow order ("lines" ∷ "1" ∷ []))
unfolding Dict.get
replace_lem_example = replace_lem context to_seven (int (pos 7)) order "lines" ("1" ∷ []) refl

pointer_segments-joined_example :
    pointer_segments (push_front slash (joined "a/b" ("c~d" ∷ []))) ≡ ok ("a/b" ∷ "c~d" ∷ [])
pointer_segments-joined_example = pointer_segments-joined "a/b" ("c~d" ∷ [])

abbrev fault_of : String → Dict Value → ChaosDecision
fault_of fault params = record { rule_id = "r1"; fault = fault; params = params; occurrence = 1 }

abbrev answered : UnitResponse
answered = record { status = 200; headers = []; body = "{}"; delay_ms = 3; transport = none }

abbrev stamps : Dict String
stamps = ("vendorfake-fault", "malformed_body") ∷ ("vendorfake-rule", "r1") ∷ []

abbrev cut_answer : UnitResponse
cut_answer = record answered { headers = stamps; body = "{" }

cuts :
    apply_response_fault no_number context
      (fault_of "malformed_body" (("mode", str "truncate") ∷ []))
      answered
    ≡ ok cut_answer
unfolding apply_response_fault commit_mode corrupted malformed_body malformed_mode stamp_mechanism
    take_text size_of has_phase as_int as_float Dict.get Dict.put
cuts = refl

abbrev slowed_answer : UnitResponse
slowed_answer = record answered {
  headers = ("vendorfake-fault", "slow_body") ∷ ("vendorfake-rule", "r1") ∷ [];
  transport = some (slow_body 1 100);
}

slows :
    apply_response_fault no_number context
      (fault_of "slow_body" (("chunk_bytes", int (pos 0)) ∷ []))
      answered
    ≡ ok slowed_answer
unfolding apply_response_fault commit_mode corrupted directive directive_of stamp_mechanism
    has_phase as_int as_float Dict.get Dict.put
slows = refl

apply_response_fault-Stamped_example :
    IsStamped
      (λ text. text)
      (fault_of "slow_body" (("chunk_bytes", int (pos 0)) ∷ []))
      answered
      slowed_answer
unfolding has_phase
apply_response_fault-Stamped_example =
    apply_response_fault-Stamped no_number context
      (fault_of "slow_body" (("chunk_bytes", int (pos 0)) ∷ [])) answered slowed_answer refl slows

apply_response_fault_intact_example :
    (slowed_answer.status ≡ answered.status) × (slowed_answer.body ≡ answered.body)
unfolding is_commit_fault has_phase
apply_response_fault_intact_example =
    apply_response_fault_intact no_number context
      (fault_of "slow_body" (("chunk_bytes", int (pos 0)) ∷ [])) answered slowed_answer refl slows

-- A number becomes text, and what then stands there is removed.
abbrev two_ops : Items
two_ops = of_list (
    document (("op", str "retype") ∷ ("pointer", str "/tip") ∷ [])
    ∷ document (("op", str "remove") ∷ ("pointer", str "/id") ∷ [])
    ∷ [])

mutates :
    apply_ops context (document (("id", str "o1") ∷ ("tip", int (pos 5)) ∷ [])) two_ops
    ≡ ok (document (("tip", str "5") ∷ []))
unfolding apply_ops apply_pointer_op point_at pointer_segments read_escapes unescape split_on edit
    change_child pointer_step set_child remove_child retype retype_target default_retype_target
    as_text padded digits Dict.get Dict.put Dict.pop
mutates = refl

-- An unknown mode, and a `commit` that no fault knows, are refused.
unknown_mode :
    apply_response_fault no_number context
      (fault_of "malformed_body" (("mode", str "pdf") ∷ []))
      answered
    ≡ err bad_mode
unfolding apply_response_fault commit_mode corrupted malformed_body malformed_mode has_phase
    Dict.get
unknown_mode = refl

unknown_commit :
    apply_response_fault no_number context
      (fault_of "empty_response" (("commit", str "never") ∷ []))
      answered
    ≡ err bad_commit
unfolding apply_response_fault commit_mode is_commit_fault has_phase Dict.get
unknown_commit = refl
