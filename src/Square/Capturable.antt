-- ===== src/Square/Capturable.antt =====
-- When the captures and the write of PayOrder succeed, square/surface/orders.py.
use vendorfake.Prelude.{
  String, ◌≡◌, ◌≢◌, refl, true, none, some, List, [], ◌∷◌, map, arith, inl, inr, Option-cases,
}
use vendorfake.Text.{text_eq_refl, mem_text}
use vendorfake.Dict
use vendorfake.Dict.{Dict}
use vendorfake.Json.{str}
use vendorfake.Errors.{ok}
use vendorfake.Action.{and_then}
use vendorfake.Machine.Defs.{assert_transition, can_transition}
use vendorfake.Store.State.{Store, Entity}
use vendorfake.Store.Collection.{check_version}
use vendorfake.Store.Laws.Writes.{entity_at, WritesOne}
use vendorfake.Store.Laws.Succeeds.{IsVersioned, update_succeeds, update-IsVersioned}
use vendorfake.Square.Machines.{payment_machine}
use vendorfake.Square.Entities.{OrderEntity, PaymentEntity}
use vendorfake.Square.Payments.{capture_draft, capture_payment, capture_all}
use vendorfake.Square.Accepting.{ArePayable}
use vendorfake.Square.Capturing.{capture_payment-IsCaptured}

-- The payments are approved and stored.
abbrev pub AreCapturable : Store → List PaymentEntity → Type 0
AreCapturable s [] = Unit {0}
AreCapturable s (p ∷ ps) =
    (p.status ≡ "APPROVED") × (entity_at s "payments" p.id ≢ none) × AreCapturable s ps

pub payable-AreCapturable :
    (order : OrderEntity) (ps : List PaymentEntity) (s : Store)
    → ArePayable order ps
    → ((k : String)
        → mem_text k (map (λ (p : PaymentEntity). p.id) ps) ≡ true
        → entity_at s "payments" k ≢ none)
    → AreCapturable s ps
payable-AreCapturable order [] s payable there = tt
payable-AreCapturable order (p ∷ ps) s (payable, others) there = (
  payable.0,
  there p.id (ground (arith, text_eq_refl p.id)),
  payable-AreCapturable order ps s others (λ k e. there k (ground (arith, e))),
)

-- A write of a payment keeps all of them stored.
write-AreCapturable :
    (id : String) (e : Entity) (ps : List PaymentEntity) (s t : Store)
    → WritesOne "payments" id e s t
    → AreCapturable s ps
    → AreCapturable t ps
write-AreCapturable id e [] s t writes h = tt
write-AreCapturable id e (p ∷ ps) s t writes (approved, there, others) = (
  approved,
  λ nothing. there (ground (arith, writes "payments" p.id, nothing)),
  write-AreCapturable id e ps s t writes others,
)

capture_payment-ok :
    (order_id operation : String) (p : PaymentEntity) (s : Store) (current : Entity)
    → IsVersioned s
    → p.status ≡ "APPROVED"
    → entity_at s "payments" p.id ≡ some current
    → (e : Entity) × ((capture_payment (some order_id) operation p s).0 ≡ ok e)
      × IsVersioned (capture_payment (some order_id) operation p s).1
unfolding capture_payment capture_draft check_version assert_transition can_transition Dict.get
    Dict.has
capture_payment-ok order_id operation p s current versioned approved found =
    let meta = some (("operation_id", str operation) ∷ []) in
    let allowed : assert_transition payment_machine p.status "COMPLETED" ≡ ok tt =
      rw approved refl in
    let (e, done) =
      update_succeeds "payments" p.id (capture_draft (some order_id)) none meta s current _
        versioned found refl refl in
    (
      e,
      rw (allowed, capture_payment) done,
      rw (allowed, capture_payment)
          (update-IsVersioned "payments" p.id (capture_draft (some order_id)) none meta s e
            versioned done),
    )

pub capture_all-ok :
    (order_id : String) (ps : List PaymentEntity) (s : Store)
    → IsVersioned s
    → AreCapturable s ps
    → (capture_all order_id ps s).0 ≡ ok tt
unfolding capture_all and_then
capture_all-ok order_id [] s versioned h = refl
capture_all-ok order_id (p ∷ ps) s versioned (approved, there, others) =
    elim (Option-cases (entity_at s "payments" p.id)) [
      | inl absent ↦ absurd (there absent)
      | inr (current, found) ↦
          let (e, done, versioned') =
            capture_payment-ok order_id "PayOrder" p s current versioned approved found in
          let writes = (capture_payment-IsCaptured order_id "PayOrder" p s e done).1 in
          let rest =
            capture_all-ok order_id ps (capture_payment (some order_id) "PayOrder" p s).1 versioned'
              (write-AreCapturable p.id e ps s _ writes others) in
          rw (done, and_then) rest
    ]
