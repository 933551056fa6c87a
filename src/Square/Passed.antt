-- ===== src/Square/Passed.antt =====
-- The steps that a PayOrder which returns has passed, square/surface/orders.py.
use vendorfake.Prelude.{some, ℕ, String, ◌≡◌, sym, ap, ◌∙◌, Option, List}
use vendorfake.Json.{ℤ, Value}
use vendorfake.Errors.{Result, ok}
use vendorfake.Action.{and_then, return, and_then-eq-ok, and_then-ok}
use vendorfake.Store.State.{Store, Entity}
use vendorfake.Square.Entities.{order_from_entity, OrderEntity, PaymentEntity}
use vendorfake.Square.Totals.{Quantities, order_total}
use vendorfake.Square.Resolving.{resolve_payments}
use vendorfake.Square.Tenders.{settle}
use vendorfake.Square.Reads.{require_order_found}
use vendorfake.Store.State.{raw}
use vendorfake.Store.Laws.Writes.{entity_at}
use vendorfake.Square.Payments.{
  require_order, pay_order, find_payments, assert_payable, capture_all, captured, write_order,
  settle_order, pay_with, pay_found,
}

module _ (q : Quantities) (text_of : Value → String) (minted : ℕ → String) (order_id : String)
    (pids : List String) (expect_version : Option ℤ) where
  -- The order was written and the payments were captured.
  pub settle_order-eq-ok :
      (order : OrderEntity) (paid : Option (List PaymentEntity)) (s : Store) (e : Entity)
      → (settle_order q text_of minted order_id pids expect_version order paid s).0 ≡ ok e
      → let written = write_order q text_of minted order_id pids expect_version order paid s in
        let kept = capture_all order_id (captured paid) written.1 in
        (written.0 ≡ ok e)
        × (kept.0 ≡ ok tt)
        × (settle_order q text_of minted order_id pids expect_version order paid s ≡ (ok e, kept.1))
  unfolding settle_order
  settle_order-eq-ok order paid s e h =
      let written = write_order q text_of minted order_id pids expect_version order paid in
      let (e', returned, onward) =
        and_then-eq-ok written
          (λ updated. and_then (capture_all order_id (captured paid)) (λ nothing. return updated)) s
          e h in
      let (nothing, kept, ended) =
        and_then-eq-ok (capture_all order_id (captured paid)) (λ nothing. return e') (written s).1 e
          (rw onward at h) in
      let total : settle_order q text_of minted order_id pids expect_version order paid s
          ≡ (ok e', (capture_all order_id (captured paid) (written s).1).1) =
        onward ∙ ended in
      let answers = sym (ap (λ (p : Result Entity × Store). p.0) total) ∙ h in
      let same : e' ≡ e = cc in
      (
        returned ∙ ap ok same,
        kept,
        total
            ∙ ap (λ (d : Entity). (ok d, (capture_all order_id (captured paid) (written s).1).1))
                same,
      )

  -- The payments were resolved and the settlement was accepted.
  pub pay_with-eq-ok :
      (order : OrderEntity) (found : List (String × Option PaymentEntity)) (s : Store) (e : Entity)
      → (pay_with q text_of minted order_id pids expect_version order found s).0 ≡ ok e
      → (paid : Option (List PaymentEntity)) × (resolve_payments order found ≡ ok paid)
        × (settle q order pids paid ≡ ok tt)
        × (pay_with q text_of minted order_id pids expect_version order found s
            ≡ settle_order q text_of minted order_id pids expect_version order paid s)
  unfolding pay_with
  pay_with-eq-ok order found s e h =
      let (paid, resolved, onward) =
        and_then-eq-ok (λ s. (resolve_payments order found, s)) _ s e h in
      let (settled, accepted, after) =
        and_then-eq-ok (λ s. (settle q order pids paid, s)) _ s e (rw onward at h) in
      (paid, resolved, accepted, onward ∙ after)

  -- The order was payable.
  pub pay_found-eq-ok :
      (order : OrderEntity) (s : Store) (e : Entity)
      → (pay_found q text_of minted order_id pids expect_version order s).0 ≡ ok e
      → let found = find_payments text_of pids s in
        (assert_payable order ≡ ok tt)
        × ((total : ℤ) × (order_total q order ≡ ok total))
        × (pay_found q text_of minted order_id pids expect_version order s
            ≡ pay_with q text_of minted order_id pids expect_version order found.0 found.1)
  unfolding pay_found
  pay_found-eq-ok order s e h =
      let (payable, accepted, onward) = and_then-eq-ok (λ s. (assert_payable order, s)) _ s e h in
      let (total, totalled, after) =
        and_then-eq-ok (λ s. (order_total q order, s)) _ s e (rw onward at h) in
      (accepted, (total, totalled), onward ∙ after)

  pub pay_order-found :
      (s : Store) (stored : Entity)
      → entity_at (raw "orders" s) "orders" order_id ≡ some stored
      → pay_order q text_of minted order_id pids expect_version s
        ≡ pay_found q text_of minted order_id pids expect_version
            (order_from_entity text_of stored)
            (raw "orders" s)
  unfolding pay_order
  pay_order-found s stored found =
      and_then-ok (require_order text_of order_id)
        (pay_found q text_of minted order_id pids expect_version) s (raw "orders" s)
        (order_from_entity text_of stored) (require_order_found text_of order_id s stored found)
