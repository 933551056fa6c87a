-- ===== src/Machine/Defs.antt =====
-- `StateDef`, `MachineDef` and `StateMachine` of core/state/machine.py. The checks of
-- `__post_init__` are the functions that build a `StateDef` and a `MachineDef`.
use vendorfake.Prelude.{
  String, Bool, true, false, not, ◌&&◌, none, some, List, [], ◌∷◌, all, if◌then◌else◌,
}
use vendorfake.Text.{text_eq, mem_text}
use vendorfake.Dict
use vendorfake.Dict.{Dict}
use vendorfake.Json.{Value, bool, str, document, strs}
use vendorfake.Errors.{
  Result, ok, Error, unit_error, value_error, invalid_value, invalid_transition, ◌>>◌, raise_if,
}

pub record StateDef : Type 0 where
  pub summary : String
  pub to : List String
  pub allow_self : Bool

abbrev pub is_empty {ℓ} : {A : Type ℓ} → List A → Bool
is_empty [] = true
is_empty (x ∷ xs) = false

-- `StateDef.terminal`
unfoldable pub terminal : StateDef → Bool
terminal s = is_empty s.to

-- `StateDef(summary, to, allow_self)`
unfoldable pub new_state : String → List String → Bool → Result StateDef
new_state summary to allow_self = do
  raise_if (is_empty to && allow_self) value_error
  ok (record { summary = summary; to = to; allow_self = allow_self })

pub record MachineDef : Type 0 where
  pub field : String
  pub initial : String
  pub states : Dict StateDef

-- The first loop of `MachineDef.__post_init__`: every target of every state is declared.
unfoldable pub targets_declared : Dict StateDef → Dict StateDef → Bool
targets_declared states [] = true
targets_declared states ((name, s) ∷ rest) =
    all (Dict.has states) s.to && targets_declared states rest

-- `MachineDef(field, initial, states)`
unfoldable pub new_machine : String → String → Dict StateDef → Result MachineDef
unfolding targets_declared
new_machine field initial states = do
  raise_if (text_eq field "") value_error
  raise_if (is_empty states) value_error
  raise_if (not (Dict.has states initial)) value_error
  raise_if (not (targets_declared states states)) value_error
  ok (record { field = field; initial = initial; states = states })

-- `StateMachine.states`
unfoldable pub states : MachineDef → List String
states m = Dict.keys m.states

-- `StateMachine.is_terminal`
unfoldable pub is_terminal : MachineDef → String → Bool
unfolding terminal
is_terminal m state = elim (Dict.get m.states state) [ none ↦ false | some s ↦ terminal s ]

-- `StateMachine.can_transition`
unfoldable pub can_transition : MachineDef → String → String → Bool
can_transition m from_state to_state = elim (Dict.get m.states from_state) [
  | none ↦ false
  | some s ↦ if text_eq from_state to_state then s.allow_self else mem_text to_state s.to
]

-- `list(declared.to) if declared is not None else []`
abbrev pub reachable : MachineDef → String → List String
reachable m from_state = elim (Dict.get m.states from_state) [ none ↦ [] | some s ↦ s.to ]

-- The two refusals of `assert_transition`, with their `info`.
abbrev pub undeclared : MachineDef → Error
undeclared m =
    unit_error invalid_value (some m.field) (document (("allowed", strs (Dict.keys m.states)) ∷ []))

abbrev pub unreachable : MachineDef → String → String → Bool → List String → Error
unreachable m from_state to_state is_last allowed = unit_error invalid_transition (some m.field) (
    document (
      ("from", str from_state)
      ∷ ("to", str to_state)
      ∷ ("terminal", bool is_last)
      ∷ ("allowed", strs allowed)
      ∷ []))

-- `StateMachine.assert_transition`
unfoldable pub assert_transition : MachineDef → String → String → Result (Unit {0})
assert_transition m from_state to_state = do
  raise_if (not (Dict.has m.states to_state)) (undeclared m)
  raise_if (not (can_transition m from_state to_state))
      (unreachable m from_state to_state (is_terminal m from_state) (reachable m from_state))

-- `StateMachine.assert_mutable`
unfoldable pub assert_mutable : MachineDef → String → Result (Unit {0})
assert_mutable m from_state = raise_if (is_terminal m from_state) (
    unit_error invalid_transition (some m.field)
      (document (("from", str from_state) ∷ ("terminal", bool true) ∷ [])))

-- `StateMachine.describe`: each state with its `terminal` flag.
unfoldable pub describe_states : Dict StateDef → Dict Value
describe_states [] = []
describe_states ((name, s) ∷ rest) =
    ((
      name,
      document (
          ("summary", str s.summary)
          ∷ ("to", strs s.to)
          ∷ ("allow_self", bool s.allow_self)
          ∷ ("terminal", bool (terminal s))
          ∷ []),
    )
      ∷ describe_states rest)

unfoldable pub describe : MachineDef → Value
unfolding describe_states
describe m = document (
    ("field", str m.field)
    ∷ ("initial", str m.initial)
    ∷ ("states", document (describe_states m.states))
    ∷ [])
