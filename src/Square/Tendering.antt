-- ===== src/Square/Tendering.antt =====
-- What tenders apply to an order, square/entities.py and square/surface/orders.py.
use vendorfake.Prelude.{
  ℕ, suc, String, ◌≡◌, refl, ap, ◌∙◌, Option, none, some, List, [], ◌∷◌, ltb, arith, Bool-cases,
  Option-cases, inl, inr,
}
use vendorfake.Dict
use vendorfake.Dict.{Dict}
use vendorfake.Json.{pos, Value, to_dict-of_dict}
use vendorfake.Json.Canonical.{compact, int_eq, int_eq_iff}
use vendorfake.Integers.{int_laws}
use vendorfake.Errors.{ok}
use vendorfake.Square.Readers.{objects, listed, Money}
use vendorfake.Square.Entities.{
  Tender, applied, tender_to_entity, OrderEntity, PaymentEntity, total, tender_from_entity,
}
use vendorfake.Square.Totals.{Quantities, sum_of, amount_due}
use vendorfake.Square.Tenders.{
  tender_for_payment, tenders_for, opaque_tenders, settle, opaque_ids, new_tenders,
}

-- A stored list of objects is read back.
pub objects-listed : (ds : List (Dict Value)) → objects (some (listed ds)) ≡ ds
unfolding objects
objects-listed [] = refl
objects-listed (d ∷ ds) = rw (to_dict-of_dict d, objects-listed ds) refl

tender_with_tip :
    (text_of : Value → String) (t : Tender) (tip : Option Money)
    → let tipped : Tender = record t { tip_money = tip } in
      tender_from_entity text_of (tender_to_entity tipped) ≡ tipped
unfolding tender_from_entity tender_to_entity compact Dict.get
tender_with_tip text_of t none = refl
tender_with_tip text_of t (some tip) = refl

-- Every tender is read back from the entity that it is stored as.
pub tender_from_entity-to_entity :
    (text_of : Value → String) (t : Tender) → tender_from_entity text_of (tender_to_entity t) ≡ t
tender_from_entity-to_entity text_of t = tender_with_tip text_of t t.tip_money

-- What a payment's tender applies is the payment's amount: the tip is on top of it.
applied-tender_for_payment :
    (id : String) (order : OrderEntity) (now : String) (p : PaymentEntity)
    → applied (tender_for_payment id order now p) ≡ p.amount_money.amount
unfolding applied tender_for_payment total
applied-tender_for_payment id order now p = elim (Option-cases p.tip_money) [
  | inl absent ↦ rw absent (omega int_laws)
  | inr (tip, given) ↦ rw given (omega int_laws)
]

applied-tenders_for :
    (minted : ℕ → String) (n : ℕ) (order : OrderEntity) (now : String) (ps : List PaymentEntity)
    → sum_of applied (tenders_for minted n order now ps)
      ≡ sum_of (λ (p : PaymentEntity). p.amount_money.amount) ps
unfolding sum_of tenders_for
applied-tenders_for minted n order now [] = refl
applied-tenders_for minted n order now (p ∷ ps) =
    rw
      (
        applied-tender_for_payment (minted n) order now p,
        applied-tenders_for minted (suc n) order now ps,
      )
      refl

applied-opaque_tenders :
    (minted : ℕ → String) (n : ℕ) (order : OrderEntity) (now : String) (due : ℕ) (pid : String)
    (pids : List String)
    → sum_of applied (opaque_tenders minted n order now due (pid ∷ pids)) ≡ pos due
unfolding sum_of opaque_tenders applied
applied-opaque_tenders minted n order now due pid [] = omega int_laws
applied-opaque_tenders minted n order now due pid (next ∷ pids) =
    rw (applied-opaque_tenders minted (suc n) order now 0 next pids) (omega int_laws)

module _ (q : Quantities) where
  -- Where the settlement of the payments, or of the opaque ids, is accepted, the tenders that PayOrder
  -- adds apply what is due on the order, no more and no less.
  pub applied-new_tenders :
      (minted : ℕ → String) (order : OrderEntity) (now : String) (pids : List String)
      (stored : Option (List PaymentEntity))
      → settle q order pids stored ≡ ok tt
      → sum_of applied (new_tenders q minted order now pids stored) ≡ pos (amount_due q order)
  unfolding settle new_tenders opaque_ids
  applied-new_tenders minted order now pids (some ps) settled =
      let paid = sum_of (λ (p : PaymentEntity). p.amount_money.amount) ps in
      applied-tenders_for minted 0 order now ps
      ∙ elim (Bool-cases (int_eq paid (pos (amount_due q order)))) [
        | inl same ↦ (int_eq_iff paid (pos (amount_due q order))).0 same
        | inr other ↦ let raised = (rw other at settled) in cc
      ]
  applied-new_tenders minted order now (pid ∷ pids) none settled =
      applied-opaque_tenders minted 0 order now (amount_due q order) pid pids
  applied-new_tenders minted order now [] none settled =
      elim (Bool-cases (ltb 0 (amount_due q order))) [
        | inl due ↦
            rw due
              (applied-opaque_tenders minted 0 order now (amount_due q order) "unit-payment" [])
        | inr paid ↦ rw paid (ap pos (ground (arith, paid)))
      ]
