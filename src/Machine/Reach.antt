-- ===== src/Machine/Reach.antt =====
-- The states that an entity can come to by accepted moves.
use vendorfake.Prelude.{String, ◌≡◌, true, arith, refl}
use vendorfake.Dict
use vendorfake.Errors.{ok}
use vendorfake.Machine.Defs.{MachineDef, is_terminal, assert_transition}
use vendorfake.Machine.Moves.{
  IsMachine, can_transition-declared, terminal-can_transition, assert_transition-eq-ok_iff,
}

-- An entity in state `a` comes to state `b` by moves that `assert_transition` accepts.
pub data Reaches (m : MachineDef) (a : String) : String → Type 0 where
  here : Reaches m a a
  next : {b c : String} → Reaches m a b → assert_transition m b c ≡ ok tt → Reaches m a c

-- An entity that starts in the initial state of a valid machine is always in a declared state.
pub Reaches-declared :
    (m : MachineDef) (b : String) → IsMachine m → Reaches m m.initial b → Dict.has m.states b ≡ true
Reaches-declared m b valid here = valid.initial_declared
Reaches-declared m b valid (next {b = c} r move) =
    can_transition-declared m valid c b ((assert_transition-eq-ok_iff m c b valid).0 move)

-- An entity in a terminal state of a valid machine stays in it for ever.
pub Reaches-terminal :
    (m : MachineDef) (a b : String) → IsMachine m → is_terminal m a ≡ true → Reaches m a b → b ≡ a
Reaches-terminal m a b valid last here = refl
Reaches-terminal m a b valid last (next {b = c} r move) =
    let same = Reaches-terminal m a c valid last r in
    let legal = (assert_transition-eq-ok_iff m c b valid).0 move in
    ground (arith, terminal-can_transition m valid a b last, same, legal)
