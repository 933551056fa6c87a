-- ===== src/Json/Canonical.antt =====
-- `canonical_json` and `compact` of core/util/json.py. `canonical_json` prints a document with the
-- keys of each object sorted; two such texts are equal exactly if the sorted documents are, so
-- the model keeps the sorted document in place of its text.
use vendorfake.Prelude.{
  String, ◌≡◌, refl, ◌↔◌, Bool, true, false, ◌&&◌, [], ◌∷◌, arith, ◌==◌, if◌then◌else◌,
}
use vendorfake.Text.{text_eq, text_eq_iff, text_le}
use vendorfake.Dict.{Dict}
use vendorfake.Json.Defs.{
  ℤ, pos, negsuc, Value, null, bool, int, str, arr, obj, Items, nil, cons, Fields, end, field,
}

insert_field : String → Value → Fields → Fields
insert_field k v end = field k v end
insert_field k v (field j w fs) =
    if text_le k j then field k v (field j w fs) else field j w (insert_field k v fs)

unfoldable mutual
  unfolding insert_field

  pub canonical_json : Value → Value
  canonical_json null = null
  canonical_json (bool b) = bool b
  canonical_json (int n) = int n
  canonical_json (str s) = str s
  canonical_json (arr xs) = arr (canonical_items xs)
  canonical_json (obj fs) = obj (canonical_fields fs)

  pub canonical_items : Items → Items
  canonical_items nil = nil
  canonical_items (cons v vs) = cons (canonical_json v) (canonical_items vs)

  pub canonical_fields : Fields → Fields
  canonical_fields end = end
  canonical_fields (field k v fs) = insert_field k (canonical_json v) (canonical_fields fs)

unfoldable pub bool_eq : Bool → Bool → Bool
bool_eq true true = true
bool_eq false false = true
bool_eq _ _ = false

unfoldable pub int_eq : ℤ → ℤ → Bool
int_eq (pos m) (pos n) = m == n
int_eq (negsuc m) (negsuc n) = m == n
int_eq _ _ = false

-- Equality of two JSON texts, by their documents.
unfoldable mutual
  unfolding bool_eq int_eq

  pub value_eq : Value → Value → Bool
  value_eq null null = true
  value_eq (bool a) (bool b) = bool_eq a b
  value_eq (int m) (int n) = int_eq m n
  value_eq (str s) (str t) = text_eq s t
  value_eq (arr xs) (arr ys) = items_eq xs ys
  value_eq (obj fs) (obj gs) = fields_eq fs gs
  value_eq _ _ = false

  pub items_eq : Items → Items → Bool
  items_eq nil nil = true
  items_eq (cons v vs) (cons w ws) = value_eq v w && items_eq vs ws
  items_eq _ _ = false

  pub fields_eq : Fields → Fields → Bool
  fields_eq end end = true
  fields_eq (field k v fs) (field j w gs) = text_eq k j && value_eq v w && fields_eq fs gs
  fields_eq _ _ = false

bool_eq_iff : (a b : Bool) → (bool_eq a b ≡ true) ↔ (a ≡ b)
unfolding bool_eq
bool_eq_iff true b = ground arith
bool_eq_iff false b = ground arith

pub int_eq_iff : (m n : ℤ) → (int_eq m n ≡ true) ↔ (m ≡ n)
unfolding int_eq
int_eq_iff m n = ground arith

and_parts : (a b : Bool) → (a && b) ≡ true → (a ≡ true) × (b ≡ true)
and_parts a b h = ground arith

field_congr :
    {k j : String} {v w : Value} {fs gs : Fields}
    → k ≡ j
    → v ≡ w
    → fs ≡ gs
    → field k v fs ≡ field j w gs
field_congr a b c = cc

cons_congr : {v w : Value} {vs ws : Items} → v ≡ w → vs ≡ ws → cons v vs ≡ cons w ws
cons_congr a b = cc

mutual
  unfolding value_eq

  eq_of_value : (v w : Value) → value_eq v w ≡ true → v ≡ w
  eq_of_value null w h = ground arith
  eq_of_value (bool a) (bool b) h = ground (arith, bool_eq_iff a b)
  eq_of_value (int m) (int n) h = ground (arith, int_eq_iff m n)
  eq_of_value (str s) (str t) h = ground (arith, text_eq_iff s t)
  eq_of_value (arr xs) (arr ys) h = ground (arith, eq_of_items xs ys)
  eq_of_value (obj fs) (obj gs) h = ground (arith, eq_of_fields fs gs)
  eq_of_value _ _ h = cc

  eq_of_items : (xs ys : Items) → items_eq xs ys ≡ true → xs ≡ ys
  eq_of_items nil ys h = ground arith
  eq_of_items (cons v vs) nil h = cc
  eq_of_items (cons v vs) (cons w ws) h =
      let (same_first, same_rest) = and_parts (value_eq v w) (items_eq vs ws) h in
      cons_congr (eq_of_value v w same_first) (eq_of_items vs ws same_rest)

  eq_of_fields : (fs gs : Fields) → fields_eq fs gs ≡ true → fs ≡ gs
  eq_of_fields end gs h = ground arith
  eq_of_fields (field k v fs) end h = cc
  eq_of_fields (field k v fs) (field j w gs) h =
      let (front, last) = and_parts (text_eq k j && value_eq v w) (fields_eq fs gs) h in
      let (same_key, same_value) = and_parts (text_eq k j) (value_eq v w) front in
      field_congr ((text_eq_iff k j).0 same_key) (eq_of_value v w same_value)
        (eq_of_fields fs gs last)

mutual
  unfolding value_eq

  value_eq_refl : (v : Value) → value_eq v v ≡ true
  value_eq_refl null = refl
  value_eq_refl (bool a) = ground (arith, bool_eq_iff a a)
  value_eq_refl (int m) = ground (arith, int_eq_iff m m)
  value_eq_refl (str s) = ground (arith, text_eq_iff s s)
  value_eq_refl (arr xs) = items_eq_refl xs
  value_eq_refl (obj fs) = fields_eq_refl fs

  items_eq_refl : (xs : Items) → items_eq xs xs ≡ true
  items_eq_refl nil = refl
  items_eq_refl (cons v vs) = ground (arith, value_eq_refl v, items_eq_refl vs)

  fields_eq_refl : (fs : Fields) → fields_eq fs fs ≡ true
  fields_eq_refl end = refl
  fields_eq_refl (field k v fs) =
      ground (arith, text_eq_iff k k, value_eq_refl v, fields_eq_refl fs)

-- The test on documents decides equality.
pub value_eq_iff : (v w : Value) → (value_eq v w ≡ true) ↔ (v ≡ w)
value_eq_iff v w = (eq_of_value v w, λ e. rw e (value_eq_refl w))

-- `compact`: the keys whose value is not `None`, in order.
unfoldable pub compact : Dict Value → Dict Value
compact [] = []
compact ((k, null) ∷ d) = compact d
compact ((k, v) ∷ d) = (k, v) ∷ compact d
