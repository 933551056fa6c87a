-- ===== src/Square/Refusing.antt =====
-- A PayOrder that raises, square/surface/orders.py.
use vendorfake.Prelude.{ℕ, String, ◌≡◌, sym, ap, ◌∙◌, false, Option, List, inl, inr, Option-cases}
use vendorfake.Dict
use vendorfake.Dict.{Dict}
use vendorfake.Json.{ℤ, Value}
use vendorfake.Errors.{Result, ok, err, Error, Result-cases}
use vendorfake.Action.{and_then, and_then-err}
use vendorfake.Store.State.{Store, Entity, raw}
use vendorfake.Store.Laws.Writes.{entity_at}
use vendorfake.Store.Laws.Rejected.{update-Untouched}
use vendorfake.Store.Laws.Succeeds.{IsVersioned}
use vendorfake.Square.Entities.{OrderEntity, PaymentEntity, order_from_entity}
use vendorfake.Square.Totals.{Quantities, order_total}
use vendorfake.Square.Resolving.{resolve_payments}
use vendorfake.Square.Tenders.{settle}
use vendorfake.Square.Payments.{
  require_order, missing_order, find_payments, assert_payable, write_order, settle_order, pay_with,
  pay_found, pay_order,
}
use vendorfake.Square.Reads.{
  require_order_missing, SameEntities, raw-SameEntities, find_payments-SameEntities,
}
use vendorfake.Square.Passed.{pay_order-found}
use vendorfake.Square.Found.{payments_at, payments_at-same, find_payments-eq, IsKeyed}
use vendorfake.Square.Returning.{captures-ok}

-- If the call raised, every entity is as it was.
abbrev LeavesIfRaised : Store → Result Entity × Store → Type 0
LeavesIfRaised s outcome =
    (x : Error) → outcome.0 ≡ err x → (n k : String) → entity_at outcome.1 n k ≡ entity_at s n k

module _ (q : Quantities) (text_of : Value → String) (minted : ℕ → String) (order_id : String)
    (pids : List String) (expect_version : Option ℤ) where
  settle_order-Leaves :
      (order : OrderEntity) (paid : Option (List PaymentEntity)) (s t : Store)
      → IsKeyed s
      → IsVersioned s
      → SameEntities s t
      → resolve_payments order (payments_at text_of s pids) ≡ ok paid
      → LeavesIfRaised s (settle_order q text_of minted order_id pids expect_version order paid t)
  unfolding settle_order write_order and_then
  settle_order-Leaves order paid s t keyed versioned same resolved x h n k =
      let write = write_order q text_of minted order_id pids expect_version order paid t in
      elim (Result-cases write.0) [
        | inl (y, raised) ↦
            rw (raised, settle_order, and_then)
              (ap (λ (es : Dict Entity). Dict.get es k)
                  ((update-Untouched "orders" order_id _ expect_version _ false t y
                      raised).same_entities
                    n)
                ∙ same.0 n k)
        | inr (e, done) ↦
            let taken =
              captures-ok q text_of minted order_id pids expect_version order paid s t e keyed
                versioned same resolved done in
            let returned = (rw (done, taken, settle_order, and_then) at h) in cc
      ]

  pay_found-Leaves :
      (order : OrderEntity) (s : Store)
      → IsKeyed s
      → IsVersioned s
      → LeavesIfRaised s
          (pay_found q text_of minted order_id pids expect_version order (raw "orders" s))
  unfolding pay_found pay_with and_then
  pay_found-Leaves order s keyed versioned x h n k =
      let r = raw "orders" s in
      let found = find_payments text_of pids r in
      let raised = raw-SameEntities "orders" s in
      let reads = find_payments-SameEntities text_of pids r in
      let same : SameEntities s found.1 = (λ n k. reads.0 n k ∙ raised.0 n k, reads.1 ∙ raised.1) in
      elim (Result-cases (assert_payable order)) [
        | inl (y, refused) ↦ rw (refused, pay_found, and_then) (raised.0 n k)
        | inr (payable, accepted) ↦ elim (Result-cases (order_total q order)) [
          | inl (y, refused) ↦ rw (accepted, refused, pay_found, and_then) (raised.0 n k)
          | inr (total, totalled) ↦ elim (Result-cases (resolve_payments order found.0)) [
            | inl (y, refused) ↦
                rw (accepted, totalled, refused, pay_found, pay_with, and_then) (same.0 n k)
            | inr (paid, resolved) ↦ elim (Result-cases (settle q order pids paid)) [
              | inl (y, refused) ↦
                  rw (accepted, totalled, resolved, refused, pay_found, pay_with, and_then)
                    (same.0 n k)
              | inr (settled, agreed) ↦
                  let read =
                    find_payments-eq text_of pids r ∙ payments_at-same text_of pids s r raised in
                  rw (accepted, totalled, resolved, agreed, pay_found, pay_with, and_then)
                    (settle_order-Leaves order paid s found.1 keyed versioned same
                      (ap (resolve_payments order) (sym read) ∙ resolved) x
                      (rw (accepted, totalled, resolved, agreed, pay_found, pay_with, and_then) at
                        h)
                      n k)
            ]
          ]
        ]
      ]

  -- A PayOrder that raises has changed no entity of any collection, whatever it raises, where every
  -- payment is stored under its id and every entity has a whole number as its version.
  pub pay_order_raises_clean :
      (s : Store) (x : Error) (n k : String)
      → IsKeyed s
      → IsVersioned s
      → (pay_order q text_of minted order_id pids expect_version s).0 ≡ err x
      → entity_at (pay_order q text_of minted order_id pids expect_version s).1 n k
        ≡ entity_at s n k
  unfolding pay_order
  pay_order_raises_clean s x n k keyed versioned h =
      let same = (raw-SameEntities "orders" s).0 in
      elim (Option-cases (entity_at (raw "orders" s) "orders" order_id)) [
        | inl absent ↦
            let stopped : pay_order q text_of minted order_id pids expect_version s
                ≡ (err missing_order, raw "orders" s) =
              and_then-err (require_order text_of order_id)
                (pay_found q text_of minted order_id pids expect_version) s (raw "orders" s)
                missing_order (require_order_missing text_of order_id s absent) in
            rw stopped (same n k)
        | inr (stored, there) ↦
            let onward =
              pay_order-found q text_of minted order_id pids expect_version s stored there in
            rw onward (
              pay_found-Leaves (order_from_entity text_of stored) s keyed versioned x
                (rw onward at h) n k)
      ]
