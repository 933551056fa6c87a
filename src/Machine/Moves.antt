-- ===== src/Machine/Moves.antt =====
-- Which moves a machine allows, and how it refuses the others.
use vendorfake.Prelude.{
  String, ◌≡◌, refl, subst, ◌≢◌, ◌↔◌, Bool, true, false, some, List, [], ◌∷◌, arith, all,
  Option-cases, Bool-cases, inl, inr,
}
use vendorfake.Text.{text_eq, text_eq_iff, mem_text}
use vendorfake.Dict
use vendorfake.Dict.{Dict}
use vendorfake.Dict.Laws.{has_of_get, AllValues, AllValues-get, get_cons_cases}
use vendorfake.Errors.{ok, err, raise_if}
use vendorfake.Machine.Defs.{
  StateDef, MachineDef, terminal, is_empty, new_state, new_machine, targets_declared, is_terminal,
  can_transition, assert_transition, assert_mutable, undeclared, unreachable, reachable,
}

-- What the constructor of `StateDef` guarantees: a terminal state does not allow itself.
abbrev pub IsStateDef : StateDef → Type 0
IsStateDef s = terminal s ≡ true → s.allow_self ≡ false

abbrev pub StatesValid : Dict StateDef → Type 0
StatesValid = AllValues IsStateDef

-- What the constructors guarantee of a machine.
pub record IsMachine (m : MachineDef) : Type 0 where
  pub initial_declared : Dict.has m.states m.initial ≡ true
  pub targets : targets_declared m.states m.states ≡ true
  pub states_valid : StatesValid m.states

pub new_state-IsStateDef :
    (summary : String) (to : List String) (allow_self : Bool) {s : StateDef}
    → new_state summary to allow_self ≡ ok s
    → IsStateDef s
unfolding new_state terminal
new_state-IsStateDef summary to allow_self h e = ground arith

pub new_machine-IsMachine :
    (field initial : String) (states : Dict StateDef) {m : MachineDef}
    → StatesValid states
    → new_machine field initial states ≡ ok m
    → IsMachine m
unfolding new_machine
new_machine-IsMachine field initial states {m} v h = ground arith

all_mem :
    (p : String → Bool) (xs : List String) (b : String)
    → all p xs ≡ true
    → mem_text b xs ≡ true
    → p b ≡ true
all_mem p [] b h m = cc
all_mem p (x ∷ xs) b h m = elim (Bool-cases (text_eq x b)) [
  | inl same ↦ subst (λ y. p y ≡ true) ((text_eq_iff x b).0 same) (ground arith)
  | inr other ↦ all_mem p xs b (ground arith) (rw other at m)
]

-- A target that a declared state lists is declared.
target_declared :
    (states d : Dict StateDef) (k b : String) (s : StateDef)
    → targets_declared states d ≡ true
    → Dict.get d k ≡ some s
    → mem_text b s.to ≡ true
    → Dict.has states b ≡ true
unfolding Dict.get targets_declared
target_declared states [] k b s t h m = cc
target_declared states ((j, u) ∷ d) k b s t h m = elim (get_cons_cases d j k u s h) [
  | inl same ↦
      all_mem (Dict.has states) s.to b
        (subst (λ (r : StateDef). all (Dict.has states) r.to ≡ true) same (ground arith)) m
  | inr later ↦ target_declared states d k b s (ground arith) later m
]

empty_mem : (b : String) (xs : List String) → is_empty xs ≡ true → mem_text b xs ≡ false
empty_mem b [] h = refl
empty_mem b (x ∷ xs) h = cc

module _ (m : MachineDef) (valid : IsMachine m) where
  -- Every legal move leads to a declared state, so the two checks of `assert_transition` agree.
  pub can_transition-declared :
      (a b : String) → can_transition m a b ≡ true → Dict.has m.states b ≡ true
  unfolding can_transition
  can_transition-declared a b h = elim (Option-cases (Dict.get m.states a)) [
    | inl missing ↦ ground arith
    | inr (s, found) ↦ elim (Bool-cases (text_eq a b)) [
      | inl same ↦
          subst (λ c. Dict.has m.states c ≡ true) ((text_eq_iff a b).0 same)
            (has_of_get m.states a s found)
      | inr other ↦ target_declared m.states m.states a b s valid.targets found (ground arith)
    ]
  ]

  -- A terminal state allows no move at all, not even to itself.
  pub terminal-can_transition :
      (a b : String) → is_terminal m a ≡ true → can_transition m a b ≡ false
  unfolding can_transition is_terminal terminal
  terminal-can_transition a b h = elim (Option-cases (Dict.get m.states a)) [
    | inl missing ↦ ground arith
    | inr (s, found) ↦
        ground
          (arith, AllValues-get IsStateDef m.states a s valid.states_valid found, empty_mem b s.to)
  ]

-- A move is accepted exactly if the machine allows it. (The check that the target is declared
-- refuses nothing that `can_transition` allows.)
pub assert_transition-eq-ok_iff :
    (m : MachineDef) (a b : String)
    → IsMachine m
    → (assert_transition m a b ≡ ok tt) ↔ (can_transition m a b ≡ true)
unfolding assert_transition
assert_transition-eq-ok_iff m a b valid =
    (λ e. ground arith, λ h. ground (arith, can_transition-declared m valid a b h))

-- Whatever is refused is refused with the right kind: `invalid_value`, with all the declared
-- states, exactly if the target is no state; `invalid_transition`, with what can be reached and
-- whether the present state is terminal, exactly if the target is a state and the move is illegal.
pub assert_transition_errors :
    (m : MachineDef) (a b : String)
    → ((assert_transition m a b ≡ err (undeclared m)) ↔ (Dict.has m.states b ≡ false))
      × ((assert_transition m a b ≡ err (unreachable m a b (is_terminal m a) (reachable m a)))
          ↔ ((Dict.has m.states b ≡ true) × (can_transition m a b ≡ false)))
unfolding assert_transition
assert_transition_errors m a b =
    ((λ e. ground arith, λ h. ground arith), (λ e. ground arith, λ h. ground arith))

-- An entity that `assert_mutable` refuses is in a state from which `assert_transition` refuses
-- every move.
pub immutable-assert_transition :
    (m : MachineDef) (a b : String)
    → IsMachine m
    → assert_mutable m a ≢ ok tt
    → assert_transition m a b ≢ ok tt
unfolding assert_mutable
immutable-assert_transition m a b valid frozen accepted = elim (Bool-cases (is_terminal m a)) [
  | inl last ↦ ground (
    arith,
    terminal-can_transition m valid a b last,
    (assert_transition-eq-ok_iff m a b valid).0 accepted,
  )
  | inr live ↦ frozen (rw (live, raise_if))
]
