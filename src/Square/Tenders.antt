-- ===== src/Square/Tenders.antt =====
-- The tenders of an order, and when it is completed: square/surface/orders.py.
use vendorfake.Prelude.{
  ℕ, suc, String, Bool, false, not, ◌&&◌, Option, none, some, List, [], ◌∷◌, ◌++◌, map, keep,
  length, ltb, ◌==◌, if◌then◌else◌,
}
use vendorfake.Text.{text_eq}
use vendorfake.Dict
use vendorfake.Dict.{Dict}
use vendorfake.Json.{pos, Value, int, str, document}
use vendorfake.Json.Canonical.{int_eq}
use vendorfake.Errors.{Result, ok, err, unit_error, invalid_value}
use vendorfake.Store.State.{Entity}
use vendorfake.Square.Readers.{objects, listed}
use vendorfake.Square.Entities.{
  Tender, tender_to_entity, OrderEntity, PaymentEntity, total, order_from_entity,
}
use vendorfake.Square.Totals.{Quantities, sum_of, order_amount, amount_due}

-- `draft.get(key) == text`
unfoldable pub has_text : Entity → String → String → Bool
has_text draft key text = elim (Dict.get draft key) [
  | some (str t) ↦ text_eq t text
  | other ↦ false
]

-- `tender_for_payment`, with the id that is minted for it.
unfoldable pub tender_for_payment : String → OrderEntity → String → PaymentEntity → Tender
unfolding total
tender_for_payment id order now p = record {
  id = id;
  location_id = order.location_id;
  transaction_id = order.id;
  created_at = now;
  amount_money = record { amount = total p; currency = order.currency };
  kind = if text_eq p.source_type "EXTERNAL" then "OTHER" else "CARD";
  payment_id = p.id;
  tip_money = elim p.tip_money [
    | none ↦ none
    | some tip ↦ some (record { amount = tip.amount; currency = order.currency })
  ];
}

-- The tenders of the payments; `minted n` is the n-th id that the request mints.
unfoldable pub tenders_for :
    (ℕ → String) → ℕ → OrderEntity → String → List PaymentEntity → List Tender
unfolding tender_for_payment
tenders_for minted n order now [] = []
tenders_for minted n order now (p ∷ ps) =
    tender_for_payment (minted n) order now p ∷ tenders_for minted (suc n) order now ps

-- The tenders of ids that name no payment: the first carries what is due.
unfoldable pub opaque_tenders :
    (ℕ → String) → ℕ → OrderEntity → String → ℕ → List String → List Tender
opaque_tenders minted n order now due [] = []
opaque_tenders minted n order now due (pid ∷ pids) =
    (record {
      id = minted n;
      location_id = order.location_id;
      transaction_id = order.id;
      created_at = now;
      amount_money = record { amount = pos due; currency = order.currency };
      kind = "CARD";
      payment_id = pid;
      tip_money = none;
    })
    ∷ opaque_tenders minted (suc n) order now 0 pids

module _ (q : Quantities) where
  -- `_is_zero_quantity`
  unfoldable pub is_zero_quantity : Dict Value → Bool
  is_zero_quantity line = elim (Dict.get line "quantity") [
    | some (str raw) ↦ elim (q.parse raw) [ none ↦ false | some quantity ↦ q.is_zero quantity ]
    | other ↦ false
  ]

  -- `_drop_zero_quantity_lines`
  unfoldable pub drop_zero_quantity_lines : Entity → Entity
  unfolding is_zero_quantity objects
  drop_zero_quantity_lines draft =
      let lines = objects (Dict.get draft "line_items") in
      let kept = keep (λ line. not (is_zero_quantity line)) lines in
      if length kept == length lines then draft else Dict.put draft "line_items" (listed kept)

  -- `_complete_order`
  unfoldable pub complete_order : String → Entity → Entity
  unfolding has_text drop_zero_quantity_lines
  complete_order now draft =
      if has_text draft "state" "COMPLETED"
      then draft
      else drop_zero_quantity_lines
          (Dict.put (Dict.put draft "state" (str "COMPLETED")) "closed_at" (str now))

  -- What is due on an order once payments are resolved, or the refusal to take them.
  unfoldable pub settle :
      OrderEntity → List String → Option (List PaymentEntity) → Result (Unit {0})
  unfolding amount_due order_amount sum_of
  settle order pids (some ps) =
      let paid = sum_of (λ (p : PaymentEntity). p.amount_money.amount) ps in
      if int_eq paid (pos (amount_due q order))
      then ok tt
      else err (
          unit_error invalid_value (some "payment_ids") (
            document (
              ("payments_total", int paid)
              ∷ ("order_total", int (order_amount q order))
              ∷ ("due", int (pos (amount_due q order)))
              ∷ [])))
  settle order pids none =
      if ltb 0 (length pids) && amount_due q order == 0
      then err (
          unit_error invalid_value (some "payment_ids") (
            document (
              ("order_total", int (order_amount q order))
              ∷ ("due", int (pos (amount_due q order)))
              ∷ [])))
      else ok tt

  -- `payment_ids or (["unit-payment"] if due > 0 else [])`
  unfoldable pub opaque_ids : OrderEntity → List String → List String
  unfolding amount_due
  opaque_ids order (pid ∷ pids) = pid ∷ pids
  opaque_ids order [] = if ltb 0 (amount_due q order) then "unit-payment" ∷ [] else []

  -- The tenders that PayOrder adds.
  unfoldable pub new_tenders :
      (ℕ → String) → OrderEntity → String → List String → Option (List PaymentEntity) → List Tender
  unfolding tenders_for opaque_tenders opaque_ids
  new_tenders minted order now pids (some ps) = tenders_for minted 0 order now ps
  new_tenders minted order now pids none =
      opaque_tenders minted 0 order now (amount_due q order) (opaque_ids order pids)

  module _ (text_of : Value → String) where
    -- `apply_tenders`
    unfoldable pub apply_tenders : List Tender → String → Entity → Entity
    unfolding complete_order has_text
    apply_tenders tenders now draft =
        let stored = objects (Dict.get draft "tenders") ++ map tender_to_entity tenders in
        let tendered = Dict.put draft "tenders" (listed stored) in
        if has_text tendered "state" "OPEN"
          && amount_due q (order_from_entity text_of tendered) == 0
        then complete_order now tendered
        else tendered
