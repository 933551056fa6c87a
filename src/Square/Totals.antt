-- ===== src/Square/Totals.antt =====
-- What an order totals and what is due on it, square/model/order.py.
use vendorfake.Prelude.{
  ℕ, String, Bool, true, false, ◌&&◌, Option, none, some, List, [], ◌∷◌, ◌≡◌, sym, if◌then◌else◌,
  Bool-cases, Option-cases, inl, inr,
}
use vendorfake.Errors.{Result, ok, err, overflow_error, Result-cases}
use vendorfake.Json.{ℤ, pos}
use vendorfake.Integers.{◌+ℤ◌, ◌-ℤ◌}
use vendorfake.Numbers.{at_least_zero}
use vendorfake.Square.Entities.{OrderLineItem, applied, OrderEntity}

-- What the code does with a quantity, which is a float: `js_parse_float`, `math.isfinite`, the
-- comparison with 0.0, and `js_round(amount * quantity)`, which raises an OverflowError where the
-- product `overflows`, and is `times` else. A product with zero is zero.
pub record Quantities : Type 1 where
  pub Quantity : Type 0
  pub parse : String → Option Quantity
  pub is_finite : Quantity → Bool
  pub is_zero : Quantity → Bool
  pub overflows : ℤ → Quantity → Bool
  pub times : ℤ → Quantity → ℤ
  pub times-zero : (amount : ℤ) (q : Quantity) → is_zero q ≡ true → times amount q ≡ pos 0

-- `sum(amount(item) for item in items)`
unfoldable pub sum_of {ℓ} : {A : Type ℓ} → (A → ℤ) → List A → ℤ
sum_of amount [] = pos 0
sum_of amount (x ∷ xs) = amount x +ℤ sum_of amount xs

-- `order.tenders`, what they apply.
abbrev pub applied_total : OrderEntity → ℤ
applied_total o = sum_of applied o.tenders

module _ (q : Quantities) where
  -- What `line_item_total` returns where it returns.
  unfoldable pub line_amount : OrderLineItem → ℤ
  line_amount item = elim (q.parse item.quantity) [
    | none ↦ pos 0
    | some quantity ↦ elim (q.is_finite quantity) [
      | true ↦ q.times item.base_price_money.amount quantity
      | false ↦ pos 0
    ]
  ]

  -- `line_item_total`
  unfoldable pub line_item_total : OrderLineItem → Result ℤ
  unfolding line_amount
  line_item_total item = elim (q.parse item.quantity) [
    | none ↦ ok (pos 0)
    | some quantity ↦
        if q.is_finite quantity && q.overflows item.base_price_money.amount quantity
        then err overflow_error
        else ok (line_amount item)
  ]

  -- `sum(line_item_total(item) for item in items)`
  unfoldable pub lines_totalled : List OrderLineItem → Result ℤ
  unfolding line_item_total
  lines_totalled [] = ok (pos 0)
  lines_totalled (item ∷ items) = elim (line_item_total item) [
    | err e ↦ err e
    | ok amount ↦ elim (lines_totalled items) [ err e ↦ err e | ok total ↦ ok (amount +ℤ total) ]
  ]

  -- `order_total`
  unfoldable pub order_total : OrderEntity → Result ℤ
  unfolding lines_totalled
  order_total o = lines_totalled o.line_items

  -- What `order_total` returns where it returns.
  unfoldable pub order_amount : OrderEntity → ℤ
  unfolding line_amount sum_of
  order_amount o = sum_of line_amount o.line_items

  line_item_total-eq-ok :
      (item : OrderLineItem) (n : ℤ) → line_item_total item ≡ ok n → n ≡ line_amount item
  unfolding line_item_total line_amount
  line_item_total-eq-ok item n h = elim (Option-cases (q.parse item.quantity)) [
    | inl junk ↦
        let returned = (rw (line_item_total, junk) at h) in
        rw (line_amount, junk) (let same : pos 0 ≡ n = cc in sym same)
    | inr (quantity, parsed) ↦
        elim (Bool-cases
          (q.is_finite quantity && q.overflows item.base_price_money.amount quantity)) [
            | inl raised ↦ let stopped = (rw (line_item_total, parsed, raised) at h) in cc
            | inr fine ↦
                let returned = (rw (line_item_total, parsed, fine) at h) in
                (let same : line_amount item ≡ n = cc in sym same)
          ]
  ]

  lines_totalled-eq-ok :
      (items : List OrderLineItem) (n : ℤ)
      → lines_totalled items ≡ ok n
      → n ≡ sum_of line_amount items
  unfolding lines_totalled sum_of
  lines_totalled-eq-ok [] n h = let same : pos 0 ≡ n = cc in sym same
  lines_totalled-eq-ok (item ∷ items) n h = elim (Result-cases (line_item_total item)) [
    | inl (e, raised) ↦ let stopped = (rw (lines_totalled, raised) at h) in cc
    | inr (amount, one) ↦ elim (Result-cases (lines_totalled items)) [
      | inl (e, raised) ↦ let stopped = (rw (lines_totalled, one, raised) at h) in cc
      | inr (total, more) ↦
          let sum = (rw (lines_totalled, one, more) at h) in
          let same : amount +ℤ total ≡ n = cc in
          rw (← line_item_total-eq-ok item amount one, ← lines_totalled-eq-ok items total more)
            (sym same)
    ]
  ]

  -- The total that is returned is the sum of the lines.
  pub order_total-eq-ok : (o : OrderEntity) (n : ℤ) → order_total o ≡ ok n → n ≡ order_amount o
  unfolding order_total order_amount
  order_total-eq-ok o n h = lines_totalled-eq-ok o.line_items n h

  -- `amount_due`, of an order whose `order_total` returns.
  unfoldable pub amount_due : OrderEntity → ℕ
  unfolding order_amount
  amount_due o = at_least_zero (order_amount o -ℤ applied_total o)
