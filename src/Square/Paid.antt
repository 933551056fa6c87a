-- ===== src/Square/Paid.antt =====
-- A PayOrder that succeeds completes its order, square/surface/orders.py.
use vendorfake.Prelude.{
  ℕ, String, ◌≡◌, refl, sym, ap, ◌∙◌, subst, false, Option, some, List, [], ◌∷◌, inl,
}
use vendorfake.Text.{text_eq_refl}
use vendorfake.Dict
use vendorfake.Dict.{Dict}
use vendorfake.Json.{ℤ, pos, Value, str}
use vendorfake.Errors.{Result, ok}
use vendorfake.Clock.Defs.{iso_ms}
use vendorfake.Store.State.{Store, Entity, raw}
use vendorfake.Store.Collection.{update}
use vendorfake.Store.Laws.Writes.{entity_at}
use vendorfake.Store.Laws.Update.{update_lem}
use vendorfake.Square.Readers.{read_str}
use vendorfake.Square.Entities.{Tender, applied, PaymentEntity, order_from_entity}
use vendorfake.Square.Totals.{Quantities, sum_of}
use vendorfake.Square.Tenders.{settle, new_tenders, apply_tenders}
use vendorfake.Square.Payments.{
  find_payments, captured, write_order, settle_order, pay_found, pay_order,
}
use vendorfake.Square.Tendering.{applied-new_tenders}
use vendorfake.Square.Amounts.{due_of, due_of-same}
use vendorfake.Square.Completing.{Completed, apply_tenders-Completed}
use vendorfake.Square.Passed.{pay_order-found, settle_order-eq-ok, pay_with-eq-ok, pay_found-eq-ok}
use vendorfake.Square.Capturing.{capture_all-others}
use vendorfake.Square.Reads.{open_of_payable, raw-SameEntities, find_payments-SameEntities}

module _ (q : Quantities) (text_of : Value → String) (minted : ℕ → String) where
  -- The write of tenders that apply what is due.
  updated-Completed :
      (order_id : String) (tenders : List Tender) (expect_version : Option ℤ)
      (meta : Option (Dict Value)) (s : Store) (stored e : Entity)
      → entity_at s "orders" order_id ≡ some stored
      → Dict.get stored "state" ≡ some (str "OPEN")
      → sum_of applied tenders ≡ pos (due_of q text_of stored)
      → let now = iso_ms s.clock in
        let written : Result Entity × Store =
          update "orders" order_id
            (λ draft. ok (apply_tenders q text_of tenders now draft))
            expect_version
            meta
            false
            s in
        written.0 ≡ ok e
        → Completed q text_of now 0 e × (entity_at written.1 "orders" order_id ≡ some e)
  updated-Completed order_id tenders expect_version meta s stored e found is_open paid h =
      let now = iso_ms s.clock in
      let mutate : Entity → Result Entity =
        λ draft. ok (apply_tenders q text_of tenders now draft) in
      let u = update_lem "orders" order_id mutate expect_version meta false s e h in
      let same : u.current ≡ stored = cc (u.found, found) in
      let accepted = subst (λ d. mutate d ≡ ok u.redrafts.mutated) same u.redrafts.by_mutator in
      let made : apply_tenders q text_of tenders now stored ≡ u.redrafts.mutated = cc in
      let done = apply_tenders-Completed q text_of tenders now stored is_open paid in
      let kept : (k : String)
          → Dict.get (apply_tenders q text_of tenders now stored) k
            ≡ Dict.get u.redrafts.mutated k =
        λ k. ap (λ (d : Entity). Dict.get d k) made in
      (
        record {
          state = u.redrafts.others "state" refl refl refl refl ∙ sym (kept "state") ∙ done.state;
          closed_at =
              u.redrafts.others "closed_at" refl refl refl refl
              ∙ sym (kept "closed_at")
              ∙ done.closed_at;
          due_is =
              due_of-same q text_of e (apply_tenders q text_of tenders now stored)
                (u.redrafts.others "line_items" refl refl refl refl ∙ sym (kept "line_items"))
                (u.redrafts.others "tenders" refl refl refl refl ∙ sym (kept "tenders"))
              ∙ done.due_is;
        },
        u.writes "orders" order_id ∙ rw (text_eq_refl order_id) refl,
      )

  -- The answer of PayOrder and the order that the store then holds.
  abbrev pub Pays : String → String → Entity → Result Entity × Store → Type 0
  Pays now order_id e outcome =
      Completed q text_of now 0 e × (entity_at outcome.1 "orders" order_id ≡ some e)

  -- The write of PayOrder completes an open order if the settlement was accepted.
  settle_order-Completed :
      (order_id : String) (pids : List String) (expect_version : Option ℤ)
      (paid : Option (List PaymentEntity)) (s : Store) (stored e : Entity)
      → entity_at s "orders" order_id ≡ some stored
      → Dict.get stored "state" ≡ some (str "OPEN")
      → settle q (order_from_entity text_of stored) pids paid ≡ ok tt
      → let outcome =
          settle_order q text_of minted order_id pids expect_version
            (order_from_entity text_of stored)
            paid
            s in
        outcome.0 ≡ ok e → Pays (iso_ms s.clock) order_id e outcome
  unfolding write_order
  settle_order-Completed order_id pids expect_version paid s stored e found is_open settled h =
      let order = order_from_entity text_of stored in
      let (returned, kept, total) =
        settle_order-eq-ok q text_of minted order_id pids expect_version order paid s e h in
      let written = write_order q text_of minted order_id pids expect_version order paid s in
      let (completed, there) =
        updated-Completed order_id (new_tenders q minted order (iso_ms s.clock) pids paid)
          expect_version (some (("operation_id", str "PayOrder") ∷ [])) s stored e found is_open
          (applied-new_tenders q minted order (iso_ms s.clock) pids paid settled) returned in
      rw total (
        completed,
        capture_all-others order_id (captured paid) written.1 kept "orders" order_id (inl refl)
            ∙ there,
      )

  pay_found-Completed :
      (order_id : String) (pids : List String) (expect_version : Option ℤ) (s : Store)
      (stored e : Entity) (state : String)
      → entity_at s "orders" order_id ≡ some stored
      → Dict.get stored "state" ≡ some (str state)
      → let outcome =
          pay_found q text_of minted order_id pids expect_version
            (order_from_entity text_of stored)
            s in
        outcome.0 ≡ ok e → Pays (iso_ms s.clock) order_id e outcome
  unfolding order_from_entity read_str
  pay_found-Completed order_id pids expect_version s stored e state there in_state h =
      let order = order_from_entity text_of stored in
      let found = find_payments text_of pids s in
      let (entities, clock) = find_payments-SameEntities text_of pids s in
      let (payable, totalled, onward) =
        pay_found-eq-ok q text_of minted order_id pids expect_version order s e h in
      let (paid, resolved, accepted, after) =
        pay_with-eq-ok q text_of minted order_id pids expect_version order found.0 found.1 e
          (rw onward at h) in
      let named : order.state ≡ state = ap (read_str text_of "OPEN") in_state in
      let is_open = in_state ∙ ap (λ t. some (str t)) (sym named ∙ open_of_payable order payable) in
      let completed =
        settle_order-Completed order_id pids expect_version paid found.1 stored e
          (entities "orders" order_id ∙ there) is_open accepted (rw (onward, after) at h) in
      rw (onward, after)
        (subst
          (λ clock.
            Pays (iso_ms clock) order_id e
              (settle_order q text_of minted order_id pids expect_version order paid found.1))
          clock completed)

  -- A PayOrder of a stored order whose `state` is a text has completed the order if it returns,
  -- whatever payments it was given: the entity that it answers with is the one that the store then
  -- holds, its state is COMPLETED, it was closed at the clock's instant, and nothing is due on it.
  pub pay_order_completes :
      (order_id : String) (pids : List String) (expect_version : Option ℤ) (s : Store)
      (stored e : Entity) (state : String)
      → entity_at s "orders" order_id ≡ some stored
      → Dict.get stored "state" ≡ some (str state)
      → (pay_order q text_of minted order_id pids expect_version s).0 ≡ ok e
      → Pays (iso_ms s.clock) order_id e (pay_order q text_of minted order_id pids expect_version s)
  pay_order_completes order_id pids expect_version s stored e state there in_state h =
      let (entities, clock) = raw-SameEntities "orders" s in
      let found = entities "orders" order_id ∙ there in
      let onward = pay_order-found q text_of minted order_id pids expect_version s stored found in
      rw onward (
        subst
          (λ clock. Pays (iso_ms clock) order_id e (
            pay_found q text_of minted order_id pids expect_version
              (order_from_entity text_of stored) (raw "orders" s)))
          clock
          (pay_found-Completed order_id pids expect_version (raw "orders" s) stored e state found
            in_state (rw onward at h)))
