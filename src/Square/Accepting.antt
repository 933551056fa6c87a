-- ===== src/Square/Accepting.antt =====
-- Which payments PayOrder accepts, `_resolve_payments` of square/surface/orders.py.
use vendorfake.Prelude.{
  String, ◌≡◌, refl, ap, subst, ◌∙◌, ◌≢◌, ◌↔◌, ◌⊎◌, true, false, Option, none, some, List, [], ◌∷◌,
  map, arith, inl, inr, Bool-cases, Option-cases,
}
use vendorfake.Text.{text_eq_iff, text_eq_refl, mem_text}
use vendorfake.Errors.{ok, >>=-eq-ok}
use vendorfake.Square.Entities.{OrderEntity, PaymentEntity}
use vendorfake.Square.Resolving.{check_payment, check_payments, any_stored, resolve_payments}

abbrev pub ids_of : List (String × Option PaymentEntity) → List String
ids_of found = map (λ (pid, p). pid) found

abbrev pub stored_of : List (String × Option PaymentEntity) → List (Option PaymentEntity)
stored_of found = map (λ (pid, p). p) found

-- Every payment of the list is one that may pay the order.
abbrev pub IsPayable : OrderEntity → PaymentEntity → Type 0
IsPayable order p =
    (p.status ≡ "APPROVED")
    × ((p.order_id ≡ none) ⊎ (p.order_id ≡ some order.id))
    × (p.location_id ≡ order.location_id)

abbrev pub ArePayable : OrderEntity → List PaymentEntity → Type 0
ArePayable order [] = Unit {0}
ArePayable order (p ∷ ps) = IsPayable order p × ArePayable order ps

-- No text stands twice in the list.
abbrev pub IsUnique : List String → Type 0
IsUnique [] = Unit {0}
IsUnique (x ∷ xs) = (mem_text x xs ≡ false) × IsUnique xs

-- None of the texts stands in the other list.
abbrev Avoids : List String → List String → Type 0
Avoids seen xs = (x : String) → mem_text x xs ≡ true → mem_text x seen ≡ false

check_payment-eq-ok :
    (order : OrderEntity) (seen : List String) (pid : String) (found : Option PaymentEntity)
    (p : PaymentEntity)
    → check_payment order seen pid found ≡ ok p
    → (mem_text pid seen ≡ false) × (found ≡ some p) × IsPayable order p
unfolding check_payment
check_payment-eq-ok order seen pid none p h = ground arith
check_payment-eq-ok order seen pid (some x) p h = elim (Option-cases x.order_id) [
  | inl free ↦
      ground (arith, text_eq_iff x.status "APPROVED", text_eq_iff x.location_id order.location_id)
  | inr (owner, owned) ↦ ground (
    arith,
    text_eq_iff owner order.id,
    text_eq_iff x.status "APPROVED",
    text_eq_iff x.location_id order.location_id,
  )
]

check_payment-ok :
    (order : OrderEntity) (seen : List String) (pid : String) (p : PaymentEntity)
    → mem_text pid seen ≡ false
    → IsPayable order p
    → check_payment order seen pid (some p) ≡ ok p
unfolding check_payment
check_payment-ok order seen pid p fresh (approved, inl free, here) =
    ground (arith, text_eq_iff p.status "APPROVED", text_eq_iff p.location_id order.location_id)
check_payment-ok order seen pid p fresh (approved, inr owned, here) = ground (
  arith,
  text_eq_iff order.id order.id,
  text_eq_iff p.status "APPROVED",
  text_eq_iff p.location_id order.location_id,
)

-- The payments are the stored ones of the ids, which are all different, and may all pay the order.
pub record Accepted (order : OrderEntity) (found : List (String × Option PaymentEntity))
    (ps : List PaymentEntity) : Type 0 where
  pub stored : stored_of found ≡ map some ps
  pub distinct : IsUnique (ids_of found)
  pub payable : ArePayable order ps

check_payments-eq-ok :
    (order : OrderEntity) (seen : List String) (found : List (String × Option PaymentEntity))
    (ps : List PaymentEntity)
    → check_payments order seen found ≡ ok ps
    → Accepted order found ps × Avoids seen (ids_of found)
unfolding check_payments
check_payments-eq-ok order seen [] [] h =
    (record { stored = refl; distinct = tt; payable = tt }, λ x e. cc)
check_payments-eq-ok order seen [] (p ∷ ps) h = cc
check_payments-eq-ok order seen ((pid, f) ∷ found) ps h =
    let (p, checked, h₁) = >>=-eq-ok (check_payment order seen pid f) _ h in
    let (rest, onward, h₂) = >>=-eq-ok (check_payments order (pid ∷ seen) found) _ h₁ in
    let (fresh, there, payable) = check_payment-eq-ok order seen pid f p checked in
    let (accepted, avoids) = check_payments-eq-ok order (pid ∷ seen) found rest onward in
    let same : p ∷ rest ≡ ps = cc in
    let new : mem_text pid (ids_of found) ≡ false =
      elim (Bool-cases (mem_text pid (ids_of found))) [
        | inl again ↦ ground (arith, avoids pid again, text_eq_refl pid)
        | inr new ↦ new
      ] in
    (
      subst (Accepted order ((pid, f) ∷ found)) same (record {
        stored =
            ap (λ (f : Option PaymentEntity). f ∷ stored_of found) there
            ∙ ap (λ fs. some p ∷ fs) accepted.stored;
        distinct = (new, accepted.distinct);
        payable = (payable, accepted.payable);
      }),
      λ x e. ground (arith, avoids x, text_eq_iff pid x),
    )

check_payments-ok :
    (order : OrderEntity) (seen : List String) (found : List (String × Option PaymentEntity))
    (ps : List PaymentEntity)
    → Accepted order found ps
    → Avoids seen (ids_of found)
    → check_payments order seen found ≡ ok ps
unfolding check_payments
check_payments-ok order seen [] [] a avoids = refl
check_payments-ok order seen [] (p ∷ ps) a avoids = let none_stored = a.stored in cc
check_payments-ok order seen (entry ∷ found) [] a avoids = let some_stored = a.stored in cc
check_payments-ok order seen ((pid, f) ∷ found) (p ∷ ps) a avoids =
    let stored = a.stored in
    let (new, distinct) = a.distinct in
    let (payable, others) = a.payable in
    let there : f ≡ some p = cc in
    let rest : stored_of found ≡ map some ps = cc in
    let onward =
      check_payments-ok order (pid ∷ seen) found ps
        (record { stored = rest; distinct = distinct; payable = others })
        (λ x e. ground (arith, avoids x, text_eq_iff pid x)) in
    rw
      (
        there,
        check_payment-ok order seen pid p (ground (arith, avoids pid, text_eq_refl pid)) payable,
        onward,
      )
      refl

-- Nothing is stored under any of the ids.
abbrev pub NoneStored : List (Option PaymentEntity) → Type 0
NoneStored [] = Unit {0}
NoneStored (f ∷ fs) = (f ≡ none) × NoneStored fs

any_stored-eq-false_iff :
    (found : List (String × Option PaymentEntity))
    → (any_stored found ≡ false) ↔ NoneStored (stored_of found)
any_stored-eq-false_iff [] = (λ e. tt, λ h. refl)
any_stored-eq-false_iff ((pid, none) ∷ rest) =
    let (there, back) = any_stored-eq-false_iff rest in (λ e. (refl, there e), λ (f, h). back h)
any_stored-eq-false_iff ((pid, some p) ∷ rest) = (λ e. cc, λ (f, h). cc)

-- Where payments are accepted, one is stored exactly if there is one.
any_stored-Accepted :
    (order : OrderEntity) (found : List (String × Option PaymentEntity)) (ps : List PaymentEntity)
    → Accepted order found ps
    → (any_stored found ≡ true) ↔ (ps ≢ [])
any_stored-Accepted order [] [] a = (λ e. cc, λ some_stored. absurd (some_stored refl))
any_stored-Accepted order [] (p ∷ ps) a = let none_stored = a.stored in cc
any_stored-Accepted order (entry ∷ found) [] a = let some_stored = a.stored in cc
any_stored-Accepted order ((pid, none) ∷ found) (p ∷ ps) a = let other = a.stored in cc
any_stored-Accepted order ((pid, some x) ∷ found) (p ∷ ps) a = (λ e e'. cc, λ h. refl)

-- `_resolve_payments` reads the ids as payments exactly if at least one of them is stored and all
-- of them are, under different ids, and each payment is APPROVED, was taken at the order's
-- location, and belongs to no order or to this one; it answers with those payments in their order.
-- It reads the ids as opaque ones exactly if none of them is stored. Otherwise it raises.
pub resolve_payments_iff :
    (order : OrderEntity) (found : List (String × Option PaymentEntity))
    → ((ps : List PaymentEntity)
        → (resolve_payments order found ≡ ok (some ps)) ↔ (Accepted order found ps × (ps ≢ [])))
      × ((resolve_payments order found ≡ ok none) ↔ NoneStored (stored_of found))
unfolding resolve_payments
resolve_payments_iff order found = elim (Bool-cases (any_stored found)) [
  | inl one ↦ (
    λ ps. (
      λ h.
          let (ps', checked, same) = >>=-eq-ok (check_payments order [] found) _ (rw one at h) in
          let equal : ps' ≡ ps = cc in
          let accepted = (check_payments-eq-ok order [] found ps (checked ∙ ap ok equal)).0 in
          (accepted, (any_stored-Accepted order found ps accepted).0 one),
      λ (accepted, h). rw (one, check_payments-ok order [] found ps accepted (λ x e. refl)) refl,
    ),
    (
      λ h.
          let (ps', checked, same) = >>=-eq-ok (check_payments order [] found) _ (rw one at h) in
          cc,
      λ h. let none_stored = (any_stored-eq-false_iff found).1 h in cc,
    ),
  )
  | inr zero ↦ (
    λ ps. (
      λ h. let opaque = (rw zero at h) in cc,
      λ (accepted, h). let one = (any_stored-Accepted order found ps accepted).1 h in cc,
    ),
    (λ h. (any_stored-eq-false_iff found).0 zero, λ h. rw zero refl),
  )
]
