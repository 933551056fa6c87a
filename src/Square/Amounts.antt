-- ===== src/Square/Amounts.antt =====
-- What is due on a stored order, square/model/order.py, and that lines of quantity zero do not matter.
use vendorfake.Prelude.{
  ℕ, String, ◌≡◌, refl, sym, ap, ◌∙◌, true, not, Option, some, List, [], ◌∷◌, map, keep, length,
  ◌==◌, Bool-cases, Option-cases, inl, inr,
}
use vendorfake.Dict
use vendorfake.Dict.{Dict}
use vendorfake.Dict.Laws.{get-put}
use vendorfake.Json.{ℤ, pos, Value, str}
use vendorfake.Integers.{◌-ℤ◌, int_laws}
use vendorfake.Numbers.{at_least_zero}
use vendorfake.Store.State.{Entity}
use vendorfake.Square.Readers.{objects, listed}
use vendorfake.Square.Entities.{line_from_entity, applied, tender_from_entity, order_from_entity}
use vendorfake.Square.Totals.{Quantities, sum_of, line_amount, order_amount, amount_due}
use vendorfake.Square.Tenders.{is_zero_quantity, drop_zero_quantity_lines}
use vendorfake.Square.Tendering.{objects-listed}

module _ (q : Quantities) (text_of : Value → String) where
  -- What is due on a stored order.
  abbrev pub due_of : Entity → ℕ
  due_of draft = amount_due q (order_from_entity text_of draft)

  abbrev pub lines_total : List (Dict Value) → ℤ
  lines_total lines = sum_of (line_amount q) (map (line_from_entity text_of) lines)

  abbrev pub tenders_total : List (Dict Value) → ℤ
  tenders_total tenders = sum_of applied (map (tender_from_entity text_of) tenders)

  pub due_lem :
      (draft : Entity) (lines tenders : Option Value)
      → Dict.get draft "line_items" ≡ lines
      → Dict.get draft "tenders" ≡ tenders
      → due_of draft
        ≡ at_least_zero (lines_total (objects lines) -ℤ tenders_total (objects tenders))
  unfolding amount_due order_from_entity order_amount
  due_lem draft lines tenders h k = rw (h, k) refl

  -- Two drafts with the same lines and tenders owe the same.
  pub due_of-same :
      (draft other : Entity)
      → Dict.get draft "line_items" ≡ Dict.get other "line_items"
      → Dict.get draft "tenders" ≡ Dict.get other "tenders"
      → due_of draft ≡ due_of other
  due_of-same draft other h k =
      due_lem draft (Dict.get other "line_items") (Dict.get other "tenders") h k
      ∙ sym (due_lem other (Dict.get other "line_items") (Dict.get other "tenders") refl refl)

  zero_line_at :
      (line : Dict Value) (quantity : Option Value)
      → Dict.get line "quantity" ≡ quantity
      → is_zero_quantity q line ≡ true
      → line_amount q (line_from_entity text_of line) ≡ pos 0
  unfolding is_zero_quantity line_amount line_from_entity
  zero_line_at line (some (str raw)) e h = elim (Option-cases (q.parse raw)) [
    | inl junk ↦ let kept = (rw (e, junk, is_zero_quantity) at h) in cc
    | inr (quantity, parsed) ↦
        let zero = (rw (e, parsed, is_zero_quantity) at h) in
        elim (Bool-cases (q.is_finite quantity)) [
          | inl finite ↦
              rw (e, parsed, finite, line_amount)
                (q.times-zero (line_from_entity text_of line).base_price_money.amount quantity zero)
          | inr infinite ↦ rw (e, parsed, infinite, line_amount) refl
        ]
  ]
  zero_line_at line quantity e h = let kept = (rw (e, is_zero_quantity) at h) in cc

  zero_line :
      (line : Dict Value)
      → is_zero_quantity q line ≡ true
      → line_amount q (line_from_entity text_of line) ≡ pos 0
  zero_line line h = zero_line_at line (Dict.get line "quantity") refl h

  lines_total-keep :
      (lines : List (Dict Value))
      → lines_total (keep (λ line. not (is_zero_quantity q line)) lines) ≡ lines_total lines
  unfolding sum_of
  lines_total-keep [] = refl
  lines_total-keep (line ∷ lines) = elim (Bool-cases (is_zero_quantity q line)) [
    | inl zero ↦ rw (zero, zero_line line zero, lines_total-keep lines) (omega int_laws)
    | inr other ↦ rw (other, lines_total-keep lines) refl
  ]

  -- Lines of quantity zero add nothing, so dropping them changes no amount.
  pub due_of-drop : (draft : Entity) → due_of (drop_zero_quantity_lines q draft) ≡ due_of draft
  unfolding drop_zero_quantity_lines
  due_of-drop draft =
      let lines = objects (Dict.get draft "line_items") in
      let kept = keep (λ line. not (is_zero_quantity q line)) lines in
      elim (Bool-cases (length kept == length lines)) [
        | inl all ↦ rw all refl
        | inr some_zero ↦ rw some_zero (
            due_lem (Dict.put draft "line_items" (listed kept)) (some (listed kept))
              (Dict.get draft "tenders") (get-put draft "line_items" "line_items" (listed kept))
              (get-put draft "line_items" "tenders" (listed kept))
            ∙ ap
                (λ total.
                  at_least_zero (total -ℤ tenders_total (objects (Dict.get draft "tenders"))))
                (ap lines_total (objects-listed kept) ∙ lines_total-keep lines)
            ∙ sym
                (due_lem draft (Dict.get draft "line_items") (Dict.get draft "tenders") refl refl))
      ]
