-- ===== src/Square/Capturing.antt =====
-- What PayOrder does to the payments that it captures, square/surface/orders.py.
use vendorfake.Prelude.{
  String, ◌≡◌, refl, sym, ap, ◌∙◌, ◌⊎◌, inl, inr, true, false, none, some, List, [], ◌∷◌, map,
  arith, Bool-cases,
}
use vendorfake.Text.{text_eq, mem_text}
use vendorfake.Dict
use vendorfake.Dict.{Dict}
use vendorfake.Dict.Laws.{get-put}
use vendorfake.Json.{str}
use vendorfake.Errors.{ok, Result-cases}
use vendorfake.Action.{and_then-eq-ok}
use vendorfake.Machine.Defs.{assert_transition}
use vendorfake.Store.State.{Store, Entity}
use vendorfake.Store.Laws.Writes.{entity_at, WritesOne}
use vendorfake.Store.Laws.Update.{update_lem}
use vendorfake.Square.Machines.{payment_machine}
use vendorfake.Square.Entities.{PaymentEntity}
use vendorfake.Square.Payments.{capture_draft, capture_payment, capture_all}

-- A payment that an order has captured.
abbrev pub IsCaptured : String → Entity → Type 0
IsCaptured order_id e =
    (Dict.get e "status" ≡ some (str "COMPLETED")) × (Dict.get e "order_id" ≡ some (str order_id))

abbrev pub HoldsCaptured : String → Store → String → Type 0
HoldsCaptured order_id s k =
    (e : Entity) × (entity_at s "payments" k ≡ some e) × IsCaptured order_id e

capture_draft-IsCaptured :
    (order_id : String) (current drafted : Entity)
    → capture_draft (some order_id) current ≡ ok drafted
    → IsCaptured order_id drafted
unfolding capture_draft
capture_draft-IsCaptured order_id current drafted h =
    let moved = Dict.put current "status" (str "COMPLETED") in
    let same : Dict.put moved "order_id" (str order_id) ≡ drafted = cc in
    let at : (k : String)
        → Dict.get drafted k ≡ Dict.get (Dict.put moved "order_id" (str order_id)) k =
      λ k. ap (λ (d : Entity). Dict.get d k) (sym same) in
    (
      at "status"
          ∙ get-put moved "order_id" "status" (str order_id)
          ∙ get-put current "status" "status" (str "COMPLETED"),
      at "order_id" ∙ get-put moved "order_id" "order_id" (str order_id),
    )

-- A capture writes the payment alone, as captured.
pub capture_payment-IsCaptured :
    (order_id operation : String) (p : PaymentEntity) (s : Store) (e : Entity)
    → (capture_payment (some order_id) operation p s).0 ≡ ok e
    → IsCaptured order_id e
      × WritesOne "payments" p.id e s (capture_payment (some order_id) operation p s).1
unfolding capture_payment
capture_payment-IsCaptured order_id operation p s e h =
    elim (Result-cases (assert_transition payment_machine p.status "COMPLETED")) [
      | inl (e', refused) ↦ let stopped = (rw (refused, capture_payment) at h) in cc
      | inr (done, allowed) ↦
          let u =
            update_lem "payments" p.id (capture_draft (some order_id)) none
              (some (("operation_id", str operation) ∷ [])) false s e
              (rw (allowed, capture_payment) at h) in
          let (status, owner) =
            capture_draft-IsCaptured order_id u.current u.redrafts.mutated u.redrafts.by_mutator in
          rw (allowed, capture_payment)
            (
              (
                u.redrafts.others "status" refl refl refl refl ∙ status,
                u.redrafts.others "order_id" refl refl refl refl ∙ owner,
              ),
              u.writes,
            )
    ]

-- After a capture the payment is captured, and so are those that were before.
capture_payment-Holds :
    (order_id : String) (p : PaymentEntity) (s : Store) (e : Entity)
    → (capture_payment (some order_id) "PayOrder" p s).0 ≡ ok e
    → (k : String) → (text_eq p.id k ≡ true) ⊎ HoldsCaptured order_id s k
    → HoldsCaptured order_id (capture_payment (some order_id) "PayOrder" p s).1 k
capture_payment-Holds order_id p s e h k before =
    let (captured, writes) = capture_payment-IsCaptured order_id "PayOrder" p s e h in
    elim (Bool-cases (text_eq p.id k)) [
      | inl same ↦ (e, writes "payments" k ∙ rw same refl, captured)
      | inr other ↦ elim before [
        | inl same ↦ cc
        | inr (d, there, was) ↦ (d, writes "payments" k ∙ rw other there, was)
      ]
    ]

-- Once they are all captured, each of the payments is, and every other payment is as it was.
pub capture_all-Holds :
    (order_id : String) (ps : List PaymentEntity) (s : Store)
    → (capture_all order_id ps s).0 ≡ ok tt
    → (k : String)
    → (mem_text k (map (λ (p : PaymentEntity). p.id) ps) ≡ true) ⊎ HoldsCaptured order_id s k
    → HoldsCaptured order_id (capture_all order_id ps s).1 k
unfolding capture_all
capture_all-Holds order_id [] s h k (inr was) = was
capture_all-Holds order_id [] s h k (inl absent) = cc
capture_all-Holds order_id (p ∷ ps) s h k before =
    let (e, captured, onward) =
      and_then-eq-ok (capture_payment (some order_id) "PayOrder" p)
        (λ done. capture_all order_id ps) s tt h in
    let holds = capture_payment-Holds order_id p s e captured k in
    rw onward (
      capture_all-Holds order_id ps (capture_payment (some order_id) "PayOrder" p s).1
        (rw onward at h) k
        (elim before [
          | inl member ↦ elim (Bool-cases (text_eq p.id k)) [
            | inl same ↦ inr (holds (inl same))
            | inr other ↦ inl (rw other at member)
          ]
          | inr was ↦ inr (holds (inr was))
        ]))

pub capture_all-others :
    (order_id : String) (ps : List PaymentEntity) (s : Store)
    → (capture_all order_id ps s).0 ≡ ok tt
    → (n k : String)
    → (text_eq "payments" n ≡ false) ⊎ (mem_text k (map (λ (p : PaymentEntity). p.id) ps) ≡ false)
    → entity_at (capture_all order_id ps s).1 n k ≡ entity_at s n k
unfolding capture_all
capture_all-others order_id [] s h n k other = refl
capture_all-others order_id (p ∷ ps) s h n k other =
    let (e, captured, onward) =
      and_then-eq-ok (capture_payment (some order_id) "PayOrder" p)
        (λ done. capture_all order_id ps) s tt h in
    let (is, writes) = capture_payment-IsCaptured order_id "PayOrder" p s e captured in
    rw onward (
      capture_all-others order_id ps (capture_payment (some order_id) "PayOrder" p s).1
        (rw onward at h) n k (ground (arith, other))
      ∙ ground (arith, writes n k, other))
