-- ===== src/Square/Reads.antt =====
-- What PayOrder reads and captures, square/surface/orders.py.
use vendorfake.Prelude.{
  none, String, ◌≡◌, refl, sym, ap, ◌∙◌, subst, true, some, List, [], ◌∷◌, Bool-cases, inl, inr,
}
use vendorfake.Text.{text_eq, text_eq_iff}
use vendorfake.Dict
use vendorfake.Dict.{Dict}
use vendorfake.Json.{Value}
use vendorfake.Errors.{err, ok}
use vendorfake.Machine.Defs.{can_transition, targets_declared, terminal}
use vendorfake.Machine.Moves.{IsMachine, assert_transition-eq-ok_iff}
use vendorfake.Store.State.{Store, Entity, raw}
use vendorfake.Store.Collection.{get}
use vendorfake.Store.Laws.Entities.{entities-raw}
use vendorfake.Store.Laws.Writes.{entity_at}
use vendorfake.Square.Machines.{order_machine}
use vendorfake.Square.Entities.{OrderEntity, order_from_entity}
use vendorfake.Square.Payments.{require_order, missing_order, find_payments, assert_payable}

-- Only an open order can be completed.
to_completed :
    (state : String) → can_transition order_machine state "COMPLETED" ≡ true → state ≡ "OPEN"
unfolding can_transition Dict.get
to_completed state h = elim (Bool-cases (text_eq "OPEN" state)) [
  | inl same ↦ sym ((text_eq_iff "OPEN" state).0 same)
  | inr not_open ↦ elim (Bool-cases (text_eq "DRAFT" state)) [
    | inl same ↦ moved "DRAFT" ((text_eq_iff "DRAFT" state).0 same) (λ e. cc)
    | inr not_draft ↦ elim (Bool-cases (text_eq "COMPLETED" state)) [
      | inl same ↦ moved "COMPLETED" ((text_eq_iff "COMPLETED" state).0 same) (λ e. cc)
      | inr not_completed ↦ elim (Bool-cases (text_eq "CANCELED" state)) [
        | inl same ↦ moved "CANCELED" ((text_eq_iff "CANCELED" state).0 same) (λ e. cc)
        | inr not_canceled ↦
            let refused =
              (rw (not_open, not_draft, not_completed, not_canceled, can_transition) at h) in
            cc
      ]
    ]
  ]
]
  where
    moved :
        (name : String)
        → name ≡ state
        → (can_transition order_machine name "COMPLETED" ≡ true → state ≡ "OPEN")
        → state ≡ "OPEN"
    moved name same refused =
        refused (subst (λ s. can_transition order_machine s "COMPLETED" ≡ true) (sym same) h)

pub order_machine-IsMachine : IsMachine order_machine
unfolding targets_declared Dict.has terminal
order_machine-IsMachine = record {
  initial_declared = refl;
  targets = refl;
  states_valid = ((λ e. cc), ((λ e. cc), ((λ e. refl), ((λ e. refl), tt))));
}

pub open_of_payable : (order : OrderEntity) → assert_payable order ≡ ok tt → order.state ≡ "OPEN"
unfolding assert_payable
open_of_payable order h = elim (Bool-cases (text_eq order.state "DRAFT")) [
  | inl draft ↦ let refused = (rw draft at h) in cc
  | inr ready ↦ to_completed order.state (
      (assert_transition-eq-ok_iff order_machine order.state "COMPLETED" order_machine-IsMachine).0
        (rw ready at h))
]

-- A store with the entities and the clock of another.
abbrev pub SameEntities : Store → Store → Type 0
SameEntities s t = ((n k : String) → entity_at t n k ≡ entity_at s n k) × (t.clock ≡ s.clock)

raw-clock : (name : String) (s : Store) → (raw name s).clock ≡ s.clock
unfolding raw
raw-clock name s = elim (Bool-cases (Dict.has s.collections name)) [
  | inl there ↦ rw there refl
  | inr absent ↦ rw absent refl
]

pub raw-SameEntities : (name : String) (s : Store) → SameEntities s (raw name s)
unfolding raw
raw-SameEntities name s =
    (λ n k. ap (λ (es : Dict Entity). Dict.get es k) (entities-raw name n s), raw-clock name s)

pub find_payments-SameEntities :
    (text_of : Value → String) (pids : List String) (s : Store)
    → SameEntities s (find_payments text_of pids s).1
unfolding find_payments get
find_payments-SameEntities text_of [] s = (λ n k. refl, refl)
find_payments-SameEntities text_of (pid ∷ pids) s =
    let (entities, clock) = find_payments-SameEntities text_of pids (raw "payments" s) in
    let (entities', clock') = raw-SameEntities "payments" s in
    (λ n k. entities n k ∙ entities' n k, clock ∙ clock')

pub require_order_found :
    (text_of : Value → String) (order_id : String) (s : Store) (stored : Entity)
    → entity_at (raw "orders" s) "orders" order_id ≡ some stored
    → require_order text_of order_id s ≡ (ok (order_from_entity text_of stored), raw "orders" s)
unfolding require_order get
require_order_found text_of order_id s stored found = rw (found, require_order, get) refl

pub require_order_missing :
    (text_of : Value → String) (order_id : String) (s : Store)
    → entity_at (raw "orders" s) "orders" order_id ≡ none
    → require_order text_of order_id s ≡ (err missing_order, raw "orders" s)
unfolding require_order get
require_order_missing text_of order_id s absent = rw (absent, require_order, get) refl
