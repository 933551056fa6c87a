-- ===== src/Square/Resolving.antt =====
-- The payments that PayOrder names, `_resolve_payments` of square/surface/orders.py.
use vendorfake.Prelude.{
  String, Bool, true, false, not, Option, none, some, List, [], ◌∷◌, if◌then◌else◌,
}
use vendorfake.Text.{text_eq, mem_text}
use vendorfake.Dict.{Dict}
use vendorfake.Json.{Value, str, document}
use vendorfake.Errors.{Result, ok, err, ◌>>=◌, Error, unit_error, invalid_value}
use vendorfake.Square.Entities.{OrderEntity, PaymentEntity}

-- A refusal of one of the payments, with what `info` says of it.
abbrev pub refused_payment : String → Dict Value → Error
refused_payment pid info =
    unit_error invalid_value (some "payment_ids") (document (("payment_id", str pid) ∷ info))

-- The tests of one payment, in their order.
unfoldable pub check_payment :
    OrderEntity → List String → String → Option PaymentEntity → Result PaymentEntity
check_payment order seen pid found =
    if mem_text pid seen then err (refused_payment pid []) else elim found [
      | none ↦ err (refused_payment pid [])
      | some p ↦
          if not (text_eq p.status "APPROVED")
          then err (refused_payment pid (("status", str p.status) ∷ []))
          else if elim p.order_id [ none ↦ false | some o ↦ not (text_eq o order.id) ]
          then err (
              refused_payment pid
                (elim p.order_id [ none ↦ [] | some o ↦ ("order_id", str o) ∷ [] ]))
          else if not (text_eq p.location_id order.location_id)
          then err (
              refused_payment pid (
                ("payment_location_id", str p.location_id)
                ∷ ("order_location_id", str order.location_id)
                ∷ []))
          else ok p
    ]

-- The loop of `_resolve_payments`, on each id with what is stored under it.
unfoldable pub check_payments :
    OrderEntity → List String → List (String × Option PaymentEntity) → Result (List PaymentEntity)
unfolding check_payment
check_payments order seen [] = ok []
check_payments order seen ((pid, found) ∷ rest) = check_payment order seen pid found >>= λ p.
    check_payments order (pid ∷ seen) rest >>= λ ps. ok (p ∷ ps)

abbrev pub any_stored : List (String × Option PaymentEntity) → Bool
any_stored [] = false
any_stored ((pid, none) ∷ rest) = any_stored rest
any_stored ((pid, some p) ∷ rest) = true

-- `_resolve_payments`, once the payments are read.
unfoldable pub resolve_payments :
    OrderEntity → List (String × Option PaymentEntity) → Result (Option (List PaymentEntity))
unfolding check_payments
resolve_payments order found =
    if any_stored found then (check_payments order [] found >>= λ ps. ok (some ps)) else ok none
