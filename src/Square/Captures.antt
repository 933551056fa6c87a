-- ===== src/Square/Captures.antt =====
-- The payments after a PayOrder that succeeds, square/surface/orders.py.
use vendorfake.Prelude.{
  ℕ, String, ◌≡◌, ◌≢◌, refl, sym, ap, ◌∙◌, ◌⊎◌, inl, inr, true, false, Option, none, some, List,
  map, Bool-cases, Option-cases,
}
use vendorfake.Text.{mem_text}
use vendorfake.Json.{ℤ, Value}
use vendorfake.Errors.{ok}
use vendorfake.Action.{and_then-eq-ok}
use vendorfake.Store.State.{Store, Entity, raw}
use vendorfake.Store.Collection.{get}
use vendorfake.Store.Laws.Writes.{entity_at}
use vendorfake.Store.Laws.Update.{update_lem}
use vendorfake.Square.Entities.{OrderEntity, PaymentEntity}
use vendorfake.Square.Totals.{Quantities}
use vendorfake.Square.Resolving.{resolve_payments}
use vendorfake.Square.Payments.{
  require_order, find_payments, captured, write_order, settle_order, pay_found, pay_order,
}
use vendorfake.Square.Accepting.{resolve_payments_iff}
use vendorfake.Square.Capturing.{HoldsCaptured, capture_all-Holds, capture_all-others}
use vendorfake.Square.Reads.{SameEntities, raw-SameEntities, find_payments-SameEntities}
use vendorfake.Square.Passed.{settle_order-eq-ok, pay_with-eq-ok, pay_found-eq-ok}
use vendorfake.Square.Found.{IsKeyed, read_ids, none_read, all_read}

-- Of the payments, those with these ids are captured and the others are as they were.
abbrev CapturesOnly : String → List String → Store → Store → Type 0
CapturesOnly order_id ids s t =
    (k : String)
    → (mem_text k ids ≡ true → HoldsCaptured order_id t k)
      × (mem_text k ids ≡ false → entity_at t "payments" k ≡ entity_at s "payments" k)

abbrev payment_ids : Option (List PaymentEntity) → List String
payment_ids paid = map (λ (p : PaymentEntity). p.id) (captured paid)

-- A named payment that is stored is captured by the order, and every other payment is as it was.
pub record CapturesNamed (order_id : String) (pids : List String) (s t : Store) : Type 0 where
  pub taken :
      (k : String)
      → mem_text k pids ≡ true
      → entity_at s "payments" k ≢ none
      → HoldsCaptured order_id t k
  pub others :
      (k : String)
      → (mem_text k pids ≡ false) ⊎ (entity_at s "payments" k ≡ none)
      → entity_at t "payments" k ≡ entity_at s "payments" k

module _ (q : Quantities) (text_of : Value → String) (minted : ℕ → String) where
  settle_order-CapturesOnly :
      (order_id : String) (pids : List String) (expect_version : Option ℤ) (order : OrderEntity)
      (paid : Option (List PaymentEntity)) (s : Store) (e : Entity)
      → (settle_order q text_of minted order_id pids expect_version order paid s).0 ≡ ok e
      → CapturesOnly order_id
          (payment_ids paid)
          s
          (settle_order q text_of minted order_id pids expect_version order paid s).1
  unfolding write_order
  settle_order-CapturesOnly order_id pids expect_version order paid s e h k =
      let (returned, kept, total) =
        settle_order-eq-ok q text_of minted order_id pids expect_version order paid s e h in
      let t = (write_order q text_of minted order_id pids expect_version order paid s).1 in
      let unchanged =
        (update_lem "orders" order_id _ expect_version _ false s e returned).writes "payments" k in
      rw total (
        λ member. capture_all-Holds order_id (captured paid) t kept k (inl member),
        λ other.
            capture_all-others order_id (captured paid) t kept "payments" k (inr other) ∙ unchanged,
      )

  -- What is captured are the named payments that are stored.
  named :
      (order_id : String) (pids : List String) (order : OrderEntity)
      (paid : Option (List PaymentEntity)) (s t : Store)
      → IsKeyed s
      → resolve_payments order (find_payments text_of pids s).0 ≡ ok paid
      → CapturesOnly order_id (payment_ids paid) s t
      → CapturesNamed order_id pids s t
  named order_id pids order (some ps) s t keyed resolved only =
      let found = (find_payments text_of pids s).0 in
      let (accepted, one) = ((resolve_payments_iff order found).0 ps).0 resolved in
      let ids = read_ids text_of pids s ps keyed accepted.stored in
      record {
        taken = λ k member there. (only k).0 (ap (mem_text k) ids ∙ member);
        others = λ k other. (only k).1 (
            ap (mem_text k) ids ∙ elim other [
              | inl absent ↦ absent
              | inr nothing ↦ elim (Bool-cases (mem_text k pids)) [
                | inl member ↦ absurd (all_read text_of pids s ps k accepted.stored member nothing)
                | inr absent ↦ absent
              ]
            ]);
      }
  named order_id pids order none s t keyed resolved only =
      let found = (find_payments text_of pids s).0 in
      let zero = (resolve_payments_iff order found).1.0 resolved in
      record {
        taken = λ k member there. absurd (there (none_read text_of pids s k zero member));
        others = λ k other. (only k).1 refl;
      }

  pay_found-CapturesNamed :
      (order_id : String) (pids : List String) (expect_version : Option ℤ) (order : OrderEntity)
      (s : Store) (e : Entity)
      → IsKeyed s
      → (pay_found q text_of minted order_id pids expect_version order s).0 ≡ ok e
      → CapturesNamed order_id pids s
          (pay_found q text_of minted order_id pids expect_version order s).1
  pay_found-CapturesNamed order_id pids expect_version order s e keyed h =
      let found = find_payments text_of pids s in
      let (payable, totalled, onward) =
        pay_found-eq-ok q text_of minted order_id pids expect_version order s e h in
      let (paid, resolved, accepted, after) =
        pay_with-eq-ok q text_of minted order_id pids expect_version order found.0 found.1 e
          (rw onward at h) in
      let only =
        settle_order-CapturesOnly order_id pids expect_version order paid found.1 e
          (rw (onward, after) at h) in
      let entities = (find_payments-SameEntities text_of pids s).0 in
      rw (onward, after)
        (named order_id pids order paid s _ keyed resolved
          (λ k. ((only k).0, λ other. (only k).1 other ∙ entities "payments" k)))

  require_order-SameEntities :
      (order_id : String) (s : Store) → SameEntities s (require_order text_of order_id s).1
  unfolding require_order get
  require_order-SameEntities order_id s =
      elim (Option-cases (entity_at (raw "orders" s) "orders" order_id)) [
        | inl absent ↦ rw (absent, require_order, get) (raw-SameEntities "orders" s)
        | inr (stored, found) ↦ rw (found, require_order, get) (raw-SameEntities "orders" s)
      ]

  -- A PayOrder that returns has captured the payments that it names: where every payment is stored
  -- under its id, each named payment that is stored has the status COMPLETED and belongs to the order
  -- afterwards, and every other payment is as it was.
  pub pay_order_captures :
      (order_id : String) (pids : List String) (expect_version : Option ℤ) (s : Store) (e : Entity)
      → IsKeyed s
      → (pay_order q text_of minted order_id pids expect_version s).0 ≡ ok e
      → CapturesNamed order_id pids s (pay_order q text_of minted order_id pids expect_version s).1
  unfolding pay_order
  pay_order_captures order_id pids expect_version s e keyed h =
      let (order, read, onward) =
        and_then-eq-ok (require_order text_of order_id)
          (pay_found q text_of minted order_id pids expect_version) s e h in
      let t = (require_order text_of order_id s).1 in
      let entities = (require_order-SameEntities order_id s).0 in
      let paid =
        pay_found-CapturesNamed order_id pids expect_version order t e
          (λ k d found. keyed k d (sym (entities "payments" k) ∙ found)) (rw onward at h) in
      rw onward (record {
        taken = λ k member there.
            paid.taken k member (λ nothing. there (sym (entities "payments" k) ∙ nothing));
        others = λ k other.
            paid.others k (elim other [
              | inl absent ↦ inl absent
              | inr nothing ↦ inr (entities "payments" k ∙ nothing)
            ])
            ∙ entities "payments" k;
      })
