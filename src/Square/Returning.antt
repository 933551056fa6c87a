-- ===== src/Square/Returning.antt =====
-- When PayOrder returns, square/surface/orders.py.
use vendorfake.Prelude.{
  ℕ, String, ◌≡◌, ◌↔◌, refl, sym, ap, ◌∙◌, subst, false, Option, none, some, List, [], ◌∷◌, inl,
  inr, Option-cases,
}
use vendorfake.Text.{mem_text}
use vendorfake.Dict
use vendorfake.Dict.{Dict}
use vendorfake.Json.{ℤ, Value, str}
use vendorfake.Errors.{Result, ok}
use vendorfake.Action.{and_then}
use vendorfake.Clock.Defs.{iso_ms}
use vendorfake.Machine.Defs.{assert_transition, can_transition}
use vendorfake.Store.State.{Store, Entity, raw}
use vendorfake.Store.Collection.{get, check_version}
use vendorfake.Store.Laws.Writes.{entity_at}
use vendorfake.Store.Laws.Update.{update_lem}
use vendorfake.Store.Laws.Succeeds.{IsVersioned, update_succeeds, update-IsVersioned}
use vendorfake.Square.Entities.{OrderEntity, PaymentEntity, order_from_entity}
use vendorfake.Square.Totals.{Quantities, order_total}
use vendorfake.Square.Resolving.{resolve_payments}
use vendorfake.Square.Tenders.{settle, new_tenders, apply_tenders}
use vendorfake.Square.Payments.{
  require_order, find_payments, assert_payable, capture_all, captured, write_order, settle_order,
  pay_with, pay_found, pay_order,
}
use vendorfake.Square.Accepting.{stored_of, resolve_payments_iff}
use vendorfake.Square.Reads.{
  SameEntities, raw-SameEntities, find_payments-SameEntities, open_of_payable,
}
use vendorfake.Square.Passed.{pay_order-found, settle_order-eq-ok, pay_with-eq-ok, pay_found-eq-ok}
use vendorfake.Square.Found.{
  payments_at, payments_at-same, find_payments-eq, IsKeyed, read_ids, all_read,
}
use vendorfake.Square.Capturable.{AreCapturable, payable-AreCapturable, capture_all-ok}

module _ (q : Quantities) (text_of : Value → String) where
  -- The order is stored and open, at the expected version, none of its lines overflows, the ids are
  -- resolved, and what they are is accepted as the settlement of the order.
  pub record CanPay (order_id : String) (pids : List String) (expect_version : Option ℤ) (s : Store)
      : Type 0 where
    pub stored : Entity
    pub found : entity_at s "orders" order_id ≡ some stored
    pub is_open : (order_from_entity text_of stored).state ≡ "OPEN"
    pub total : ℤ
    pub totalled : order_total q (order_from_entity text_of stored) ≡ ok total
    pub checked : check_version "orders" order_id expect_version (Dict.get stored "version") ≡ ok tt
    pub paid : Option (List PaymentEntity)
    pub resolved :
        resolve_payments (order_from_entity text_of stored) (payments_at text_of s pids) ≡ ok paid
    pub settled : settle q (order_from_entity text_of stored) pids paid ≡ ok tt

  module _ (minted : ℕ → String) (order_id : String) (pids : List String)
      (expect_version : Option ℤ) where
    pay_found-CanPay :
        (s : Store) (stored e : Entity)
        → entity_at s "orders" order_id ≡ some stored
        → (pay_found q text_of minted order_id pids expect_version
            (order_from_entity text_of stored)
            (raw "orders" s)).0
          ≡ ok e
        → CanPay order_id pids expect_version s
    unfolding write_order
    pay_found-CanPay s stored e there h =
        let order = order_from_entity text_of stored in
        let r = raw "orders" s in
        let found = find_payments text_of pids r in
        let same = raw-SameEntities "orders" s in
        let read = find_payments-eq text_of pids r ∙ payments_at-same text_of pids s r same in
        let (payable, totalled, onward) =
          pay_found-eq-ok q text_of minted order_id pids expect_version order r e h in
        let (paid, resolved, accepted, after) =
          pay_with-eq-ok q text_of minted order_id pids expect_version order found.0 found.1 e
            (rw onward at h) in
        let (returned, kept, total) =
          settle_order-eq-ok q text_of minted order_id pids expect_version order paid found.1 e
            (rw (onward, after) at h) in
        let u = update_lem "orders" order_id _ expect_version _ false found.1 e returned in
        let current : u.current ≡ stored =
          (let twice =
              sym u.found
              ∙ (find_payments-SameEntities text_of pids r).0 "orders" order_id
              ∙ same.0 "orders" order_id
              ∙ there in
            cc) in
        record {
          stored = stored;
          found = there;
          is_open = open_of_payable order payable;
          total = totalled.0;
          totalled = totalled.1;
          checked =
              subst
                (λ (d : Entity).
                  check_version "orders" order_id expect_version (Dict.get d "version") ≡ ok tt)
                current u.checked;
          paid = paid;
          resolved = ap (resolve_payments order) (sym read) ∙ resolved;
          settled = accepted;
        }

    pay_order-CanPay :
        (s : Store) (e : Entity)
        → (pay_order q text_of minted order_id pids expect_version s).0 ≡ ok e
        → CanPay order_id pids expect_version s
    unfolding pay_order require_order and_then get
    pay_order-CanPay s e h =
        let same = (raw-SameEntities "orders" s).0 "orders" order_id in
        elim (Option-cases (entity_at s "orders" order_id)) [
          | inl absent ↦
              let missing = same ∙ absent in
              let stopped = (rw (missing, pay_order, require_order, and_then, get) at h) in cc
          | inr (stored, there) ↦
              let onward =
                pay_order-found q text_of minted order_id pids expect_version s stored
                  (same ∙ there) in
              pay_found-CanPay s stored e there (rw onward at h)
        ]

    -- The payments that were resolved can be captured behind the write of the order.
    paid-AreCapturable :
        (order : OrderEntity) (paid : Option (List PaymentEntity)) (s t : Store)
        → IsKeyed s
        → resolve_payments order (payments_at text_of s pids) ≡ ok paid
        → ((k : String) → entity_at t "payments" k ≡ entity_at s "payments" k)
        → AreCapturable t (captured paid)
    paid-AreCapturable order none s t keyed resolved same = tt
    paid-AreCapturable order (some ps) s t keyed resolved same =
        let (accepted, one) =
          ((resolve_payments_iff order (payments_at text_of s pids)).0 ps).0 resolved in
        let read = ap stored_of (find_payments-eq text_of pids s) ∙ accepted.stored in
        let ids = read_ids text_of pids s ps keyed read in
        payable-AreCapturable order ps t accepted.payable (λ k member nothing.
          all_read text_of pids s ps k read (sym (ap (mem_text k) ids) ∙ member)
            (sym (same k) ∙ nothing))

    -- Once the order is written, no capture fails.
    pub captures-ok :
        (order : OrderEntity) (paid : Option (List PaymentEntity)) (s t : Store) (e : Entity)
        → IsKeyed s
        → IsVersioned s
        → SameEntities s t
        → resolve_payments order (payments_at text_of s pids) ≡ ok paid
        → let written = write_order q text_of minted order_id pids expect_version order paid t in
          written.0 ≡ ok e → (capture_all order_id (captured paid) written.1).0 ≡ ok tt
    unfolding write_order
    captures-ok order paid s t e keyed versioned same resolved done =
        let now = iso_ms t.clock in
        let mutate : Entity → Result Entity = λ draft.
          ok (apply_tenders q text_of (new_tenders q minted order now pids paid) now draft) in
        let meta = some (("operation_id", str "PayOrder") ∷ []) in
        let u = update_lem "orders" order_id mutate expect_version meta false t e done in
        let written = write_order q text_of minted order_id pids expect_version order paid t in
        capture_all-ok order_id (captured paid) written.1
          (update-IsVersioned "orders" order_id mutate expect_version meta t e
            (λ n k d found. versioned n k d (sym (same.0 n k) ∙ found)) done)
          (paid-AreCapturable order paid s written.1 keyed resolved
            (λ k. u.writes "payments" k ∙ same.0 "payments" k))

    settle_order-ok :
        (order : OrderEntity) (paid : Option (List PaymentEntity)) (s t : Store) (stored : Entity)
        → IsKeyed s
        → IsVersioned s
        → SameEntities s t
        → resolve_payments order (payments_at text_of s pids) ≡ ok paid
        → entity_at s "orders" order_id ≡ some stored
        → check_version "orders" order_id expect_version (Dict.get stored "version") ≡ ok tt
        → (e : Entity) × ((settle_order q text_of minted order_id pids expect_version order paid
              t).0
            ≡ ok e)
    unfolding settle_order write_order and_then
    settle_order-ok order paid s t stored keyed versioned same resolved there checked =
        let now = iso_ms t.clock in
        let (e, done) =
          update_succeeds "orders" order_id
            (λ draft.
              ok (apply_tenders q text_of (new_tenders q minted order now pids paid) now draft))
            expect_version (some (("operation_id", str "PayOrder") ∷ [])) t stored _
            (λ n k d found. versioned n k d (sym (same.0 n k) ∙ found))
            (same.0 "orders" order_id ∙ there) checked refl in
        let taken = captures-ok order paid s t e keyed versioned same resolved done in
        (e, rw (done, taken, settle_order, write_order, and_then) refl)

    CanPay-pay_order :
        (s : Store)
        → IsKeyed s
        → IsVersioned s
        → CanPay order_id pids expect_version s
        → (e : Entity) × ((pay_order q text_of minted order_id pids expect_version s).0 ≡ ok e)
    unfolding pay_found pay_with and_then assert_payable assert_transition can_transition Dict.get
        Dict.has
    CanPay-pay_order s keyed versioned c =
        let order = order_from_entity text_of c.stored in
        let r = raw "orders" s in
        let found = find_payments text_of pids r in
        let raised = raw-SameEntities "orders" s in
        let onward =
          pay_order-found q text_of minted order_id pids expect_version s c.stored
            (raised.0 "orders" order_id ∙ c.found) in
        let payable : assert_payable order ≡ ok tt = rw (c.is_open, assert_payable) refl in
        let read = find_payments-eq text_of pids r ∙ payments_at-same text_of pids s r raised in
        let resolved : resolve_payments order found.0 ≡ ok c.paid =
          ap (resolve_payments order) read ∙ c.resolved in
        let reads = find_payments-SameEntities text_of pids r in
        let same : SameEntities s found.1 =
          (λ n k. reads.0 n k ∙ raised.0 n k, reads.1 ∙ raised.1) in
        let (e, done) =
          settle_order-ok order c.paid s found.1 c.stored keyed versioned same c.resolved c.found
            c.checked in
        (
          e,
          rw (onward, payable, c.totalled, resolved, c.settled, pay_found, pay_with, and_then) done,
        )

    -- Where every payment is stored under its id and every entity has a whole number as its version,
    -- PayOrder returns exactly if the order is stored and OPEN, at the expected version if one is
    -- given, its lines can be totalled, its ids are resolved (to the payments that are stored under them, or as opaque ones),
    -- and their settlement is accepted. In particular no capture fails once the order is written.
    pub pay_order_returns_iff :
        (s : Store)
        → IsKeyed s
        → IsVersioned s
        → ((e : Entity) × ((pay_order q text_of minted order_id pids expect_version s).0 ≡ ok e))
          ↔ CanPay order_id pids expect_version s
    pay_order_returns_iff s keyed versioned =
        (λ (e, h). pay_order-CanPay s e h, CanPay-pay_order s keyed versioned)
