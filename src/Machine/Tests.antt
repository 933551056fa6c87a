-- ===== src/Machine/Tests.antt =====
-- A machine of core/state/machine.py with the states of an order, and the theorems at work on it.
use vendorfake.Prelude.{◌≢◌, String, ◌≡◌, refl, ◌≢◌, true, false, [], ◌∷◌}
use vendorfake.Dict
use vendorfake.Dict.{Dict}
use vendorfake.Errors.{ok}
use vendorfake.Machine.Defs.{
  StateDef, MachineDef, new_state, new_machine, is_terminal, can_transition, assert_transition,
  assert_mutable, terminal,
}
use vendorfake.Machine.Moves.{StatesValid, IsMachine, new_machine-IsMachine}
use vendorfake.Machine.Reach.{here, Reaches-terminal}

abbrev open_state : StateDef
open_state = record { summary = "open"; to = "COMPLETED" ∷ "CANCELED" ∷ []; allow_self = true }

abbrev last_state : StateDef
last_state = record { summary = "closed"; to = []; allow_self = false }

abbrev order_states : Dict StateDef
order_states = ("OPEN", open_state) ∷ ("COMPLETED", last_state) ∷ ("CANCELED", last_state) ∷ []

abbrev order_machine : MachineDef
order_machine = record { field = "state"; initial = "OPEN"; states = order_states }

order_built : new_machine "state" "OPEN" order_states ≡ ok order_machine
unfolding new_machine Dict.has
order_built = refl

last_built : new_state "closed" [] false ≡ ok last_state
unfolding new_state
last_built = refl

order_states_valid : StatesValid order_states
unfolding terminal
order_states_valid = (λ e. cc, (λ e. refl, (λ e. refl, tt)))

order-IsMachine : IsMachine order_machine
order-IsMachine = new_machine-IsMachine "state" "OPEN" order_states order_states_valid order_built

completes : assert_transition order_machine "OPEN" "COMPLETED" ≡ ok tt
unfolding assert_transition can_transition Dict.has Dict.get
completes = refl

completed_is_terminal : is_terminal order_machine "COMPLETED" ≡ true
unfolding is_terminal Dict.get
completed_is_terminal = refl

frozen_completed : assert_mutable order_machine "COMPLETED" ≢ ok tt
unfolding assert_mutable is_terminal Dict.get
frozen_completed e = cc

abbrev completed : String
completed = "COMPLETED"

Reaches-terminal_example : completed ≡ completed
Reaches-terminal_example =
    Reaches-terminal order_machine completed completed order-IsMachine completed_is_terminal here
