-- ===== src/Square/Readers.antt =====
-- The readers of square/entities.py, and money.
use vendorfake.Prelude.{String, Option, none, some, List, [], ◌∷◌, map}
use vendorfake.Dict
use vendorfake.Dict.{Dict}
use vendorfake.Json.{
  ℤ, pos, Value, null, int, str, obj, arr, Items, nil, cons, document, to_dict, of_list,
}

-- `_int(value, default)`
unfoldable pub read_int : ℤ → Option Value → ℤ
read_int default (some (int n)) = n
read_int default v = default

-- `_details(value)`
unfoldable pub read_details : Option Value → Option (Dict Value)
read_details (some (obj fields)) = some (to_dict fields)
read_details v = none

-- The objects of a stored list; anything else that stands in it is passed over.
abbrev pub objects_of : Items → List (Dict Value)
objects_of nil = []
objects_of (cons (obj fields) vs) = to_dict fields ∷ objects_of vs
objects_of (cons v vs) = objects_of vs

unfoldable pub objects : Option Value → List (Dict Value)
objects (some (arr vs)) = objects_of vs
objects v = []

-- A stored list of objects.
abbrev pub listed : List (Dict Value) → Value
listed ds = arr (of_list (map document ds))

pub record Money : Type 0 where
  pub amount : ℤ
  pub currency : String

abbrev pub no_money : Money
no_money = record { amount = pos 0; currency = "USD" }

abbrev pub money_or : Option Money → Money
money_or none = no_money
money_or (some m) = m

-- `Money.to_entity`
abbrev pub money_to_entity : Money → Value
money_to_entity m = document (("amount", int m.amount) ∷ ("currency", str m.currency) ∷ [])

abbrev pub optional_money : Option Money → Value
optional_money none = null
optional_money (some m) = money_to_entity m

-- The amount of a tip that may be missing.
abbrev pub tip_of : Option Money → ℤ
tip_of none = pos 0
tip_of (some tip) = tip.amount

-- `text_of` is `str` of a value that is no text.
module _ (text_of : Value → String) where
  -- `str(value)`
  abbrev pub text : Value → String
  text (str t) = t
  text v = text_of v

  -- `_str(value, default)`
  unfoldable pub read_str : String → Option Value → String
  read_str default none = default
  read_str default (some null) = default
  read_str default (some v) = text v

  -- `_opt_str(value)`
  unfoldable pub read_opt_str : Option Value → Option String
  read_opt_str none = none
  read_opt_str (some null) = none
  read_opt_str (some v) = some (text v)

  -- `Money.from_entity`
  unfoldable pub money_from_entity : Option Value → Option Money
  unfolding read_int read_str
  money_from_entity (some (obj fields)) = some (record {
    amount = read_int (pos 0) (Dict.get (to_dict fields) "amount");
    currency = read_str "" (Dict.get (to_dict fields) "currency");
  })
  money_from_entity v = none

  -- `_mapping(value)`
  unfoldable pub read_mapping : Option Value → Option (Dict String)
  read_mapping (some (obj fields)) = some (map (λ (k, v). (k, text v)) (to_dict fields))
  read_mapping v = none

  pairs_of : Items → List (String × Value)
  pairs_of nil = []
  pairs_of (cons (arr (cons name (cons v nil))) vs) = (text name, v) ∷ pairs_of vs
  pairs_of (cons v vs) = pairs_of vs

  -- `_pairs(value)`
  unfoldable pub read_pairs : Option Value → Option (List (String × Value))
  unfolding pairs_of
  read_pairs (some (arr (cons v vs))) = some (pairs_of (cons v vs))
  read_pairs v = none
