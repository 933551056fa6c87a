-- ===== src/Square/PaymentTests.antt =====
-- Paying small orders, square/surface/orders.py, and the theorems at work on them.
use vendorfake.Prelude.{
  true, false, List, ◌↔◌, ◌≢◌, Bool-cases, inl, inr, ap, sym, ◌∙◌, String, ◌≡◌, refl, Option, none,
  some, [], ◌∷◌,
}
use vendorfake.Text.{text_eq, text_eq_iff}
use vendorfake.Dict
use vendorfake.Dict.{Dict}
use vendorfake.Json.{ℤ, int, pos, str}
use vendorfake.Errors.{ok, err, overflow_error}
use vendorfake.Machine.Defs.{new_machine, assert_transition, can_transition}
use vendorfake.Action.{and_then}
use vendorfake.Clock.Defs.{iso_ms}
use vendorfake.Store.State.{Entity, entities, set_entities, raw}
use vendorfake.Store.Journal.{append_journal}
use vendorfake.Store.Collection.{
  get, update, redraft, check_version, bump, next_version, restore_fixed, commit_update,
}
use vendorfake.Integers.{◌+ℤ◌, ◌-ℤ◌}
use vendorfake.Json.Canonical.{int_eq, compact}
use vendorfake.Square.Machines.{order_machine, payment_machine, fulfillment_machine}
use vendorfake.Square.Readers.{money_from_entity, read_int, read_str, read_opt_str, objects}
use vendorfake.Square.Entities.{
  PaymentEntity, order_from_entity, payment_from_entity, applied, total, tender_to_entity,
  tender_from_entity,
}
use vendorfake.Square.Totals.{line_amount, sum_of, order_amount, amount_due}
use vendorfake.Square.Tenders.{settle, new_tenders}
use vendorfake.Square.Tendering.{applied-new_tenders}
use vendorfake.Square.Payments.{pay_order}
use vendorfake.Square.Resolving.{refused_payment, resolve_payments}
use vendorfake.Square.Accepting.{Accepted, NoneStored, stored_of, resolve_payments_iff}
use vendorfake.Square.Found.{IsKeyed}
use vendorfake.Store.Laws.Writes.{entity_at}
use vendorfake.Store.Laws.Succeeds.{IsVersioned}
use vendorfake.Square.Refusing.{pay_order_raises_clean}
use vendorfake.Square.Returning.{CanPay, pay_order_returns_iff}
use vendorfake.Square.Captures.{CapturesNamed, pay_order_captures}
use vendorfake.Square.Paid.{Pays, pay_order_completes}
use vendorfake.Square.PaymentSamples.{
  text_of, quantities, order, payment, store, minted, instant, paid_order,
}

machines_built :
    (new_machine order_machine.field order_machine.initial order_machine.states ≡ ok order_machine)
    × (new_machine payment_machine.field payment_machine.initial payment_machine.states
        ≡ ok payment_machine)
    × (new_machine fulfillment_machine.field fulfillment_machine.initial fulfillment_machine.states
        ≡ ok fulfillment_machine)
unfolding new_machine Dict.has
machines_built = (refl, refl, refl)

pays : (pay_order quantities text_of minted "o1" ("p1" ∷ []) none store).0 ≡ ok paid_order
unfolding pay_order and_then get update redraft check_version bump next_version restore_fixed iso_ms
    entities set_entities raw commit_update append_journal assert_transition can_transition int_eq
    line_amount money_from_entity read_int read_str read_opt_str tender_from_entity compact ◌+ℤ◌
    ◌-ℤ◌ sum_of applied total objects Dict.get Dict.has Dict.put Dict.pop tender_to_entity
pays = refl

pay_order_completes_example :
    Pays quantities text_of minted instant "o1" paid_order
      (pay_order quantities text_of minted "o1" ("p1" ∷ []) none store)
unfolding Dict.get entities iso_ms
pay_order_completes_example =
    pay_order_completes quantities text_of minted "o1" ("p1" ∷ []) none store order paid_order
      "OPEN" refl refl pays

store-IsKeyed : IsKeyed store
unfolding Dict.get entities
store-IsKeyed k e h = elim (Bool-cases (text_eq "p1" k)) [
  | inl same ↦
      let there = (rw same at h) in
      let stored : payment ≡ e = cc in
      ap (λ (d : Entity). Dict.get d "id") (sym stored)
      ∙ ap (λ pid. some (str pid)) ((text_eq_iff "p1" k).0 same)
  | inr other ↦ let absent = (rw other at h) in cc
]

pay_order_captures_example :
    CapturesNamed "o1"
      ("p1" ∷ [])
      store
      (pay_order quantities text_of minted "o1" ("p1" ∷ []) none store).1
pay_order_captures_example =
    pay_order_captures quantities text_of minted "o1" ("p1" ∷ []) none store paid_order
      store-IsKeyed pays

abbrev found : List (String × Option PaymentEntity)
found = ("p1", some (payment_from_entity text_of payment)) ∷ []

resolve_payments_iff_example :
    ((ps : List PaymentEntity)
      → (resolve_payments (order_from_entity text_of order) found ≡ ok (some ps))
        ↔ (Accepted (order_from_entity text_of order) found ps × (ps ≢ [])))
    × ((resolve_payments (order_from_entity text_of order) found ≡ ok none)
        ↔ NoneStored (stored_of found))
resolve_payments_iff_example = resolve_payments_iff (order_from_entity text_of order) found

abbrev taken : Option (List PaymentEntity)
taken = some (payment_from_entity text_of payment ∷ [])

accepts : settle quantities (order_from_entity text_of order) ("p1" ∷ []) taken ≡ ok tt
unfolding settle amount_due order_amount line_amount sum_of applied int_eq money_from_entity
    read_int read_str read_opt_str tender_from_entity objects ◌+ℤ◌ ◌-ℤ◌ Dict.get payment_from_entity
    order_from_entity
accepts = refl

applied-new_tenders_example :
    sum_of applied
      (new_tenders quantities minted (order_from_entity text_of order) instant ("p1" ∷ []) taken)
    ≡ pos (amount_due quantities (order_from_entity text_of order))
applied-new_tenders_example =
    applied-new_tenders quantities minted (order_from_entity text_of order) instant ("p1" ∷ [])
      taken accepts

-- A line whose product with its quantity overflows makes PayOrder raise.
overflow_raises :
    (pay_order
      (record quantities { overflows = λ amount q. true })
      text_of
      minted
      "o1"
      ("p1" ∷ [])
      none
      store).0
    ≡ err overflow_error
unfolding pay_order and_then get entities raw Dict.get Dict.has money_from_entity read_int read_str
    read_opt_str objects assert_transition can_transition
overflow_raises = refl

at_version :
    (stored e : Entity) (n : ℤ)
    → Dict.get stored "version" ≡ some (int n)
    → some stored ≡ some e
    → (n : ℤ) × (Dict.get e "version" ≡ some (int n))
at_version stored e n version h =
    let same : stored ≡ e = cc in
    (n, ap (λ (d : Entity). Dict.get d "version") (sym same) ∙ version)

no_others :
    (name : String)
    → text_eq "orders" name ≡ false
    → text_eq "payments" name ≡ false
    → entities store name ≡ []
unfolding entities Dict.get
no_others name not_orders not_payments = rw (not_orders, not_payments, entities, Dict.get) refl

store-IsVersioned : IsVersioned store
unfolding Dict.get entities
store-IsVersioned name k e h = elim (Bool-cases (text_eq "orders" name)) [
  | inl orders ↦
      let here = ap (λ n. entity_at store n k) ((text_eq_iff "orders" name).0 orders) ∙ h in
      elim (Bool-cases (text_eq "o1" k)) [
        | inl same ↦ at_version order e (pos 1) refl (rw same at here)
        | inr other ↦ let absent = (rw other at here) in cc
      ]
  | inr not_orders ↦ elim (Bool-cases (text_eq "payments" name)) [
    | inl payments ↦
        let here = ap (λ n. entity_at store n k) ((text_eq_iff "payments" name).0 payments) ∙ h in
        elim (Bool-cases (text_eq "p1" k)) [
          | inl same ↦ at_version payment e (pos 1) refl (rw same at here)
          | inr other ↦ let absent = (rw other at here) in cc
        ]
    | inr not_payments ↦
        let none_there =
          sym (ap (λ (es : Dict Entity). Dict.get es k) (no_others name not_orders not_payments))
          ∙ h in
        cc
  ]
]

pay_order_returns_iff_example :
    ((e : Entity) × ((pay_order quantities text_of minted "o1" ("p1" ∷ []) none store).0 ≡ ok e))
    ↔ CanPay quantities text_of "o1" ("p1" ∷ []) none store
pay_order_returns_iff_example =
    pay_order_returns_iff quantities text_of minted "o1" ("p1" ∷ []) none store store-IsKeyed
      store-IsVersioned

pay_order_raises_clean_example :
    entity_at
      (pay_order quantities text_of minted "o1" ("p9" ∷ "p1" ∷ []) none store).1
      "orders"
      "o1"
    ≡ some order
unfolding pay_order and_then get entities raw Dict.get Dict.has money_from_entity read_int read_str
    read_opt_str objects assert_transition can_transition
pay_order_raises_clean_example =
    pay_order_raises_clean quantities text_of minted "o1" ("p9" ∷ "p1" ∷ []) none store
      (refused_payment "p9" []) "orders" "o1" store-IsKeyed store-IsVersioned refl
