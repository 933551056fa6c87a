-- ===== src/Square/Found.antt =====
-- What PayOrder finds under the ids of payments, square/surface/orders.py.
use vendorfake.Prelude.{
  Option, String, ◌≡◌, ◌≢◌, refl, sym, ap, ◌∙◌, inl, inr, true, Option, none, some, List, [], ◌∷◌,
  map, Bool-cases,
}
use vendorfake.Text.{text_eq, text_eq_iff, mem_text}
use vendorfake.Dict
use vendorfake.Dict.{Dict}
use vendorfake.Json.{Value, str}
use vendorfake.Store.State.{Store, Entity, raw}
use vendorfake.Store.Collection.{get}
use vendorfake.Store.Laws.Writes.{entity_at}
use vendorfake.Square.Readers.{read_str}
use vendorfake.Square.Entities.{PaymentEntity, payment_from_entity}
use vendorfake.Square.Payments.{read_payment, find_payments}
use vendorfake.Square.Accepting.{ids_of, stored_of, NoneStored}
use vendorfake.Square.Reads.{SameEntities, raw-SameEntities}

-- Every payment is stored under its id.
abbrev pub IsKeyed : Store → Type 0
IsKeyed s =
    (k : String) (e : Entity) → entity_at s "payments" k ≡ some e → Dict.get e "id" ≡ some (str k)

module _ (text_of : Value → String) where
  ids_of-find_payments :
      (pids : List String) (s : Store) → ids_of (find_payments text_of pids s).0 ≡ pids
  unfolding find_payments get
  ids_of-find_payments [] s = refl
  ids_of-find_payments (pid ∷ pids) s =
      ap (λ rest. pid ∷ rest) (ids_of-find_payments pids (raw "payments" s))

  read_payment-id :
      (found : Option Entity) (pid : String) (p : PaymentEntity)
      → ((e : Entity) → found ≡ some e → Dict.get e "id" ≡ some (str pid))
      → read_payment text_of found ≡ some p
      → p.id ≡ pid
  unfolding read_payment payment_from_entity read_str
  read_payment-id none pid p keyed h = cc
  read_payment-id (some e) pid p keyed h =
      let same : payment_from_entity text_of e ≡ p = cc in
      ap (λ (p : PaymentEntity). p.id) (sym same) ∙ ap (read_str text_of "") (keyed e refl)

  read_payment-none : (found : Option Entity) → read_payment text_of found ≡ none → found ≡ none
  unfolding read_payment
  read_payment-none none h = refl
  read_payment-none (some e) h = cc

  raw-IsKeyed : (s : Store) → IsKeyed s → IsKeyed (raw "payments" s)
  raw-IsKeyed s keyed k e h = keyed k e (sym ((raw-SameEntities "payments" s).0 "payments" k) ∙ h)

  -- The payments that are read have the ids that they are named by.
  pub read_ids :
      (pids : List String) (s : Store) (ps : List PaymentEntity)
      → IsKeyed s
      → stored_of (find_payments text_of pids s).0 ≡ map some ps
      → map (λ (p : PaymentEntity). p.id) ps ≡ pids
  unfolding find_payments get
  read_ids [] s [] keyed h = refl
  read_ids [] s (p ∷ ps) keyed h = cc
  read_ids (pid ∷ pids) s [] keyed h = cc
  read_ids (pid ∷ pids) s (p ∷ ps) keyed h =
      let found = entity_at (raw "payments" s) "payments" pid in
      let there : read_payment text_of found ≡ some p = cc in
      let rest : stored_of (find_payments text_of pids (raw "payments" s)).0 ≡ map some ps = cc in
      let same = read_payment-id found pid p (raw-IsKeyed s keyed pid) there in
      rw (same, read_ids pids (raw "payments" s) ps (raw-IsKeyed s keyed) rest) refl

  pub none_read :
      (pids : List String) (s : Store) (k : String)
      → NoneStored (stored_of (find_payments text_of pids s).0)
      → mem_text k pids ≡ true
      → entity_at s "payments" k ≡ none
  unfolding find_payments get
  none_read [] s k h member = cc
  none_read (pid ∷ pids) s k (absent, others) member =
      let unchanged = (raw-SameEntities "payments" s).0 "payments" k in
      elim (Bool-cases (text_eq pid k)) [
        | inl same ↦
            sym unchanged
            ∙ ap (entity_at (raw "payments" s) "payments") (sym ((text_eq_iff pid k).0 same))
            ∙ read_payment-none _ absent
        | inr other ↦
            sym unchanged ∙ none_read pids (raw "payments" s) k others (rw other at member)
      ]

  pub all_read :
      (pids : List String) (s : Store) (ps : List PaymentEntity) (k : String)
      → stored_of (find_payments text_of pids s).0 ≡ map some ps
      → mem_text k pids ≡ true
      → entity_at s "payments" k ≢ none
  unfolding find_payments get read_payment
  all_read [] s ps k h member nothing = cc
  all_read (pid ∷ pids) s [] k h member nothing = cc
  all_read (pid ∷ pids) s (p ∷ ps) k h member nothing =
      let absent = (raw-SameEntities "payments" s).0 "payments" k ∙ nothing in
      let there : read_payment text_of (entity_at (raw "payments" s) "payments" pid) ≡ some p =
        cc in
      let rest : stored_of (find_payments text_of pids (raw "payments" s)).0 ≡ map some ps = cc in
      elim (Bool-cases (text_eq pid k)) [
        | inl same ↦
            let missing =
              ap (entity_at (raw "payments" s) "payments") ((text_eq_iff pid k).0 same) ∙ absent in
            let nobody = (rw missing at there) in cc
        | inr other ↦ all_read pids (raw "payments" s) ps k rest (rw other at member) absent
      ]

  -- The ids with what is stored under them.
  abbrev pub payments_at : Store → List String → List (String × Option PaymentEntity)
  payments_at s [] = []
  payments_at s (pid ∷ pids) =
      (pid, read_payment text_of (entity_at s "payments" pid)) ∷ payments_at s pids

  pub payments_at-same :
      (pids : List String) (s t : Store)
      → SameEntities s t
      → payments_at t pids ≡ payments_at s pids
  payments_at-same [] s t same = refl
  payments_at-same (pid ∷ pids) s t same =
      rw (same.0 "payments" pid, payments_at-same pids s t same) refl

  pub find_payments-eq :
      (pids : List String) (s : Store) → (find_payments text_of pids s).0 ≡ payments_at s pids
  unfolding find_payments get
  find_payments-eq [] s = refl
  find_payments-eq (pid ∷ pids) s =
      let same = raw-SameEntities "payments" s in
      rw
        (
          same.0 "payments" pid,
          find_payments-eq pids (raw "payments" s),
          payments_at-same pids s (raw "payments" s) same,
        )
        refl
