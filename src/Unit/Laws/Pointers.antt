-- ===== src/Unit/Laws/Pointers.antt =====
-- What replacing a value at a JSON pointer does (core/chaos/faults.py).
use vendorfake.Prelude.{
  ℕ, zero, suc, String, ◌≡◌, refl, ap, ◌∙◌, subst, true, some, List, [], ◌∷◌, ltb, arith,
  Bool-cases, Option-cases, inl, inr,
}
use vendorfake.Text.{text_eq_refl}
use vendorfake.Dict
use vendorfake.Dict.{Dict}
use vendorfake.Dict.Laws.{get-put}
use vendorfake.Json.{to_dict-of_dict, Value, obj, arr, Items, nil, cons, to_dict}
use vendorfake.Errors.{Result, ok, err, ◌>>=◌, Result-cases}
use vendorfake.Paths.{position_of, item}
use vendorfake.Unit.Pointer.{
  AnswerContext, items_length, pointer_index, pointer_step, set_item, set_child, edit, change_child,
}

-- The value that the segments of a pointer lead to.
unfoldable pub follow : Value → List String → Result Value
follow node [] = ok node
follow node (segment ∷ segments) = elim (pointer_step node segment) [
  | err e ↦ err e
  | ok child ↦ follow child segments
]

items_length-set_item :
    (vs : Items) (n : ℕ) (v : Value) → items_length (set_item vs n v) ≡ items_length vs
unfolding items_length set_item
items_length-set_item nil n v = refl
items_length-set_item (cons w vs) zero v = refl
items_length-set_item (cons w vs) (suc n) v = ap suc (items_length-set_item vs n v)

item-set_item :
    (vs : Items) (n : ℕ) (v : Value)
    → ltb n (items_length vs) ≡ true
    → item (set_item vs n v) n ≡ some v
unfolding items_length set_item item
item-set_item nil n v h = ground arith
item-set_item (cons w vs) zero v h = refl
item-set_item (cons w vs) (suc n) v h = item-set_item vs n v (ground (arith, h))

pointer_index-set_item :
    (vs : Items) (segment : String) (n : ℕ) (v : Value)
    → pointer_index (set_item vs n v) segment ≡ pointer_index vs segment
unfolding pointer_index
pointer_index-set_item vs segment n v = elim (Option-cases (position_of segment)) [
  | inl missing ↦ rw (missing, pointer_index) refl
  | inr (k, found) ↦ rw (found, items_length-set_item vs n v, pointer_index) refl
]

pointer_index-bound :
    (vs : Items) (segment : String) (n : ℕ)
    → pointer_index vs segment ≡ ok n
    → ltb n (items_length vs) ≡ true
unfolding pointer_index
pointer_index-bound vs segment n h = elim (Option-cases (position_of segment)) [
  | inl missing ↦ let raised = (rw (missing, pointer_index) at h) in cc
  | inr (k, found) ↦ elim (Bool-cases (ltb k (items_length vs))) [
    | inl small ↦
        let returned = (rw (found, small, pointer_index) at h) in
        let same : k ≡ n = cc in subst (λ m. ltb m (items_length vs) ≡ true) same small
    | inr large ↦ let raised = (rw (found, large, pointer_index) at h) in cc
  ]
]

-- What was put under a key is read back.
step-set_child :
    (parent : Value) (key : String) (v w : Value)
    → pointer_step parent key ≡ ok w
    → pointer_step (set_child parent key v) key ≡ ok v
unfolding pointer_step set_child
step-set_child (obj fields) key v w h =
    rw
      (
        to_dict-of_dict (Dict.put (to_dict fields) key v),
        get-put (to_dict fields) key key v,
        text_eq_refl key,
      )
      refl
step-set_child (arr vs) key v w h = elim (Result-cases (pointer_index vs key)) [
  | inl (e, bad) ↦ let raised = (rw (bad, pointer_step) at h) in cc
  | inr (n, good) ↦
      rw
        (
          good,
          set_child,
          pointer_step,
          pointer_index-set_item vs key n v ∙ good,
          item-set_item vs n v (pointer_index-bound vs key n good),
        )
        refl
]
step-set_child parent key v w h = cc

-- Reading a pointer after a replacement at it: where the pointer leads to no value the edit raises
-- the same error, and elsewhere it returns a document in which the pointer leads to the new value.
abbrev pub Replaced : Result Value → Value → List String → Result Value → Type 0
Replaced edited v segments (err e) = edited ≡ err e
Replaced edited v segments (ok w) =
    (next : Value) × (edited ≡ ok next) × (follow next segments ≡ ok v)

-- A replacement below a key is one at the key and what follows it.
Replaced-above :
    (node child v : Value) (segment : String) (segments : List String)
    (edited followed : Result Value)
    → pointer_step node segment ≡ ok child
    → Replaced edited v segments followed
    → Replaced
        (edited >>= λ changed. ok (set_child node segment changed))
        v
        (segment ∷ segments)
        followed
unfolding follow
Replaced-above node child v segment segments edited (err e) found h = rw h refl
Replaced-above node child v segment segments edited (ok w) found (next, returned, reached) = (
  set_child node segment next,
  rw returned refl,
  rw (step-set_child node segment next child found, follow) reached,
)

module _ (change : Value → String → Value → Result Value) (v : Value)
    (sets : (parent : Value) (key : String) (w : Value)
      → change parent key w ≡ ok (set_child parent key v)) where
  edit-Replaced :
      (node : Value) (segment : String) (segments : List String)
      → Replaced
          (edit change node (segment ∷ segments))
          v
          (segment ∷ segments)
          (follow node (segment ∷ segments))
  unfolding edit follow
  edit-Replaced node segment [] = elim (Result-cases (pointer_step node segment)) [
    | inl (e, raised) ↦ rw (raised, edit, follow) refl
    | inr (w, found) ↦
        rw (found, edit, follow)
          (
            set_child node segment v,
            sets node segment w,
            rw (step-set_child node segment v w found, follow) refl,
          )
  ]
  edit-Replaced node segment (next ∷ rest) = elim (Result-cases (pointer_step node segment)) [
    | inl (e, raised) ↦ rw (raised, edit, follow) refl
    | inr (child, found) ↦
        rw (found, edit, follow)
          (Replaced-above node child v segment (next ∷ rest) (edit change child (next ∷ rest))
            (follow child (next ∷ rest)) found (edit-Replaced child next rest))
  ]

-- A `replace` operation whose `value` is given raises exactly where its pointer leads to no value,
-- with the same error; elsewhere it returns a document in which the pointer leads to that value.
pub replace_lem :
    (x : AnswerContext) (raw : Dict Value) (v node : Value) (segment : String)
    (segments : List String)
    → Dict.get raw "value" ≡ some v
    → Replaced
        (edit (change_child x "replace" raw) node (segment ∷ segments))
        v
        (segment ∷ segments)
        (follow node (segment ∷ segments))
unfolding change_child
replace_lem x raw v node segment segments given =
    edit-Replaced (change_child x "replace" raw) v (λ parent key w. rw (given, change_child) refl)
      node segment segments
