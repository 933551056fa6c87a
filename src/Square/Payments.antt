-- ===== src/Square/Payments.antt =====
-- PayOrder, square/surface/orders.py.
use vendorfake.Prelude.{ℕ, String, false, Option, none, some, List, [], ◌∷◌, if◌then◌else◌}
use vendorfake.Text.{text_eq}
use vendorfake.Dict
use vendorfake.Dict.{Dict}
use vendorfake.Json.{ℤ, Value, null, str, document}
use vendorfake.Errors.{Result, ok, err, Error, unit_error, not_found, invalid_transition}
use vendorfake.Action.{Action, and_then, return}
use vendorfake.Clock.Defs.{iso_ms}
use vendorfake.Machine.Defs.{assert_transition}
use vendorfake.Store.State.{Store, Entity}
use vendorfake.Store.Collection.{get, update}
use vendorfake.Square.Machines.{order_machine, payment_machine}
use vendorfake.Square.Entities.{OrderEntity, PaymentEntity, order_from_entity, payment_from_entity}
use vendorfake.Square.Totals.{Quantities, order_total}
use vendorfake.Square.Resolving.{resolve_payments}
use vendorfake.Square.Tenders.{settle, new_tenders, apply_tenders}

abbrev pub draft_unpayable : Error
draft_unpayable =
    unit_error invalid_transition (some "state")
      (document (("from", str "DRAFT") ∷ ("to", str "COMPLETED") ∷ []))

abbrev pub missing_order : Error
missing_order = unit_error not_found (some "order_id") null

-- The refusals of `pay_order` before it reads a payment.
unfoldable pub assert_payable : OrderEntity → Result (Unit {0})
assert_payable order =
    if text_eq order.state "DRAFT"
    then err draft_unpayable
    else assert_transition order_machine order.state "COMPLETED"

-- What `capture_payment` does to a payment's draft.
unfoldable pub capture_draft : Option String → Entity → Result Entity
capture_draft none draft = ok (Dict.put draft "status" (str "COMPLETED"))
capture_draft (some order_id) draft =
    ok (Dict.put (Dict.put draft "status" (str "COMPLETED")) "order_id" (str order_id))

-- `capture_payment`
unfoldable pub capture_payment : Option String → String → PaymentEntity → Action Store Entity
unfolding capture_draft
capture_payment order_id operation_id p s =
    elim (assert_transition payment_machine p.status "COMPLETED") [
      | err e ↦ (err e, s)
      | ok done ↦
          update "payments" p.id (capture_draft order_id) none
            (some (("operation_id", str operation_id) ∷ [])) false s
    ]

unfoldable pub capture_all : String → List PaymentEntity → Action Store (Unit {0})
unfolding capture_payment
capture_all order_id [] s = (ok tt, s)
capture_all order_id (p ∷ ps) s =
    and_then (capture_payment (some order_id) "PayOrder" p) (λ captured. capture_all order_id ps) s

abbrev pub captured : Option (List PaymentEntity) → List PaymentEntity
captured none = []
captured (some ps) = ps

module _ (text_of : Value → String) where
  -- `require_order`
  unfoldable pub require_order : String → Action Store OrderEntity
  unfolding order_from_entity
  require_order order_id s =
      let (found, s') = get "orders" order_id s in
      elim found [
        | none ↦ (err missing_order, s')
        | some stored ↦ (ok (order_from_entity text_of stored), s')
      ]

  unfoldable pub read_payment : Option Entity → Option PaymentEntity
  unfolding payment_from_entity
  read_payment none = none
  read_payment (some stored) = some (payment_from_entity text_of stored)

  -- `payments.get(pid)` of each id.
  unfoldable pub find_payments : List String → Store → List (String × Option PaymentEntity) × Store
  unfolding read_payment
  find_payments [] s = ([], s)
  find_payments (pid ∷ pids) s =
      let (found, s') = get "payments" pid s in
      let (rest, s'') = find_payments pids s' in ((pid, read_payment found) ∷ rest, s'')

module _ (q : Quantities) (text_of : Value → String) where
  -- The write of PayOrder to the order.
  unfoldable pub write_order :
      (ℕ → String)
      → String
      → List String
      → Option ℤ
      → OrderEntity
      → Option (List PaymentEntity)
      → Action Store Entity
  unfolding apply_tenders new_tenders
  write_order minted order_id pids expect_version order stored s =
      let now = iso_ms s.clock in
      update "orders" order_id
        (λ draft.
          ok (apply_tenders q text_of (new_tenders q minted order now pids stored) now draft))
        expect_version (some (("operation_id", str "PayOrder") ∷ [])) false s

  -- The write of PayOrder and the captures behind it.
  unfoldable pub settle_order :
      (ℕ → String)
      → String
      → List String
      → Option ℤ
      → OrderEntity
      → Option (List PaymentEntity)
      → Action Store Entity
  unfolding write_order capture_all
  settle_order minted order_id pids expect_version order stored =
      and_then (write_order minted order_id pids expect_version order stored)
        λ updated. and_then (capture_all order_id (captured stored)) (λ nothing. return updated)

  -- `pay_order` once the payments are read.
  unfoldable pub pay_with :
      (ℕ → String)
      → String
      → List String
      → Option ℤ
      → OrderEntity
      → List (String × Option PaymentEntity)
      → Action Store Entity
  unfolding resolve_payments settle settle_order
  pay_with minted order_id pids expect_version order found =
      and_then (λ s. (resolve_payments order found, s))
        λ stored.
          and_then (λ s. (settle q order pids stored, s))
            λ settled. settle_order minted order_id pids expect_version order stored

  -- `pay_order` once the order is read. What `amount_due` says after `order_total` has returned, for
  -- the lines of this order, here and in its draft, cannot raise.
  unfoldable pub pay_found :
      (ℕ → String) → String → List String → Option ℤ → OrderEntity → Action Store Entity
  unfolding find_payments assert_payable order_total pay_with
  pay_found minted order_id pids expect_version order =
      and_then (λ s. (assert_payable order, s))
        λ payable.
          and_then (λ s. (order_total q order, s))
            λ total s.
              let (found, s') = find_payments text_of pids s in
              pay_with minted order_id pids expect_version order found s'

  -- `pay_order`, to the entity of the order that its answer projects.
  unfoldable pub pay_order : (ℕ → String) → String → List String → Option ℤ → Action Store Entity
  unfolding require_order pay_found
  pay_order minted order_id pids expect_version =
      and_then (require_order text_of order_id)
        λ order. pay_found minted order_id pids expect_version order
