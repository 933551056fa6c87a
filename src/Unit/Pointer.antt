-- ===== src/Unit/Pointer.antt =====
-- The JSON pointers of core/chaos/faults.py and the operations of a `body_mutation` fault. The code
-- edits one document in place; the edits here give the next document. A replacement is put in as a
-- copy, where the code shares it with the rule's parameters.
use Prim.Native.Char.{Char, char, code}
use Prim.Native.String.{◌∷◌ as push_front, ◌++◌ as text_append}
use vendorfake.Prelude.{
  ℕ, zero, suc, String, Bool, true, false, ◌&&◌, ◌||◌, Option, none, some, List, [], ◌∷◌, map, ltb,
  ◌==◌, if◌then◌else◌,
}
use vendorfake.Text.{text_eq}
use vendorfake.Dict
use vendorfake.Json.{
  ℤ, pos, negsuc, Value, null, bool, int, str, obj, arr, Items, nil, cons, to_dict, of_dict,
}
use vendorfake.Numbers.{padded}
use vendorfake.Errors.{Result, ok, err, ◌>>=◌, Error, unit_error, invalid_value}
use vendorfake.Paths.{split_on, position_of, read_digits, item}

-- The standard library behind the answers: `json.loads` and `dump_json` of a body, `json.dumps`,
-- `js_number` of `js_parse_float`, on whole numbers, and the `quote` of `header_text`.
pub record AnswerContext : Type 0 where
  pub parse_json : String → Option Value
  pub dump_json : Value → String
  pub dumps : Value → String
  pub parse_prefix : String → Option ℤ
  pub quote : String → String

abbrev pub bad_ops : Error
bad_ops = unit_error invalid_value (some "params.ops") null

abbrev pub tilde : Char
tilde = char b'~' tt

abbrev pub slash : Char
slash = char b'/' tt

-- `text.replace("~" + digit, to)`
unfoldable pub unescape : ℕ → Char → String → String
unescape digit to String.[] = ""
unescape digit to (String.◌∷◌ c String.[]) = push_front c ""
unescape digit to (String.◌∷◌ c (String.◌∷◌ d s)) = elim (code c == b'~' && code d == digit) [
  | true ↦ push_front to (unescape digit to s)
  | false ↦ push_front c (unescape digit to (push_front d s))
]

-- `segment.replace("~1", "/").replace("~0", "~")`
unfoldable pub read_escapes : String → String
unfolding unescape
read_escapes segment = unescape b'0' tilde (unescape b'1' slash segment)

-- `_pointer_segments`
unfoldable pub pointer_segments : String → Result (List String)
unfolding read_escapes split_on
pointer_segments String.[] = err bad_ops
pointer_segments (String.◌∷◌ c s) =
    if code c == b'/' then ok (map read_escapes (split_on b'/' s)) else err bad_ops

unfoldable pub items_length : Items → ℕ
items_length nil = 0
items_length (cons v vs) = suc (items_length vs)

-- `_pointer_index`
unfoldable pub pointer_index : Items → String → Result ℕ
unfolding read_digits items_length
pointer_index vs segment = elim (position_of segment) [
  | none ↦ err bad_ops
  | some n ↦ if ltb n (items_length vs) then ok n else err bad_ops
]

abbrev pub existing : Option Value → Result Value
existing none = err bad_ops
existing (some v) = ok v

-- `_pointer_step`
unfoldable pub pointer_step : Value → String → Result Value
unfolding pointer_index item
pointer_step (obj fields) segment = existing (Dict.get (to_dict fields) segment)
pointer_step (arr vs) segment = elim (pointer_index vs segment) [
  | err e ↦ err e
  | ok n ↦ existing (item vs n)
]
pointer_step v segment = err bad_ops

unfoldable pub set_item : Items → ℕ → Value → Items
set_item nil n v = nil
set_item (cons w vs) zero v = cons v vs
set_item (cons w vs) (suc n) v = cons w (set_item vs n v)

unfoldable pub remove_item : Items → ℕ → Items
remove_item nil n = nil
remove_item (cons w vs) zero = vs
remove_item (cons w vs) (suc n) = cons w (remove_item vs n)

-- `parent[key] = v`
unfoldable pub set_child : Value → String → Value → Value
unfolding pointer_index set_item
set_child (obj fields) key v = obj (of_dict (Dict.put (to_dict fields) key v))
set_child (arr vs) key v = elim (pointer_index vs key) [
  | err e ↦ arr vs
  | ok n ↦ arr (set_item vs n v)
]
set_child parent key v = parent

-- `del parent[key]`
unfoldable pub remove_child : Value → String → Value
unfolding pointer_index remove_item
remove_child (obj fields) key = obj (of_dict (Dict.pop (to_dict fields) key))
remove_child (arr vs) key = elim (pointer_index vs key) [
  | err e ↦ arr vs
  | ok n ↦ arr (remove_item vs n)
]
remove_child parent key = parent

-- `_pointer_parent`, and `change` of the parent that it finds and of the value that is there.
unfoldable pub edit : (Value → String → Value → Result Value) → Value → List String → Result Value
unfolding pointer_step
edit change node [] = err bad_ops
edit change node (segment ∷ []) = pointer_step node segment >>= change node segment
edit change node (segment ∷ next ∷ rest) = pointer_step node segment >>= λ child.
    edit change child (next ∷ rest) >>= λ changed. ok (set_child node segment changed)

-- `str(n)`
abbrev pub int_text : ℤ → String
int_text (pos n) = padded 1 n
int_text (negsuc n) = text_append "-" (padded 1 (suc n))

-- The targets of `_retype`.
pub data Target : Type 0 where
  to_string to_number to_null : Target

-- `_default_retype_target`
unfoldable pub default_retype_target : Value → Target
default_retype_target (int n) = to_string
default_retype_target (str t) = to_number
default_retype_target v = to_null

unfoldable pub retype_target : Value → Option Value → Target
unfolding default_retype_target
retype_target current (some (str t)) =
    if text_eq t "string"
    then to_string
    else if text_eq t "number"
    then to_number
    else if text_eq t "null"
    then to_null
    else default_retype_target current
retype_target current as_type = default_retype_target current

module _ (x : AnswerContext) where
  -- `as_str(current, json.dumps(current))`
  unfoldable pub as_text : Value → String
  as_text (str t) = t
  as_text (bool true) = "true"
  as_text (bool false) = "false"
  as_text (int n) = int_text n
  as_text v = x.dumps v

  unfoldable pub as_number : Value → Result Value
  as_number (int n) = ok (int n)
  as_number (str t) = elim (x.parse_prefix t) [ none ↦ err bad_ops | some n ↦ ok (int n) ]
  as_number v = err bad_ops

  -- `_retype`
  unfoldable pub retype : Value → Option Value → Result Value
  unfolding retype_target as_text as_number
  retype current as_type = elim (retype_target current as_type) [
    | to_string ↦ ok (str (as_text current))
    | to_number ↦ as_number current
    | to_null ↦ ok null
  ]

  -- The three operations, on the parent, the key and the current value.
  unfoldable pub change_child : String → Dict.Dict Value → Value → String → Value → Result Value
  unfolding retype remove_child set_child
  change_child op raw parent key current =
      if text_eq op "remove"
      then ok (remove_child parent key)
      else if text_eq op "replace"
      then elim (Dict.get raw "value") [ none ↦ err bad_ops | some v ↦ ok (set_child parent key v) ]
      else retype current (Dict.get raw "as") >>= λ changed. ok (set_child parent key changed)

  abbrev pub is_op : String → Bool
  is_op op = text_eq op "remove" || text_eq op "replace" || text_eq op "retype"

  -- An operation whose `op` is known, by its `pointer`.
  unfoldable pub point_at : String → Dict.Dict Value → Option Value → Value → Result Value
  unfolding pointer_segments edit change_child
  point_at op raw (some (str pointer)) node = elim (pointer_segments pointer) [
    | err e ↦ err e
    | ok segments ↦ edit (change_child op raw) node segments
  ]
  point_at op raw pointer node = err bad_ops

  -- `_apply_pointer_op`
  unfoldable pub apply_pointer_op : Value → Value → Result Value
  unfolding point_at
  apply_pointer_op node (obj fields) = elim (Dict.get (to_dict fields) "op") [
    | some (str op) ↦
        if is_op op
        then point_at op (to_dict fields) (Dict.get (to_dict fields) "pointer") node
        else err bad_ops
    | other ↦ err bad_ops
  ]
  apply_pointer_op node raw = err bad_ops

  -- The loop over `params.ops`.
  unfoldable pub apply_ops : Value → Items → Result Value
  unfolding apply_pointer_op
  apply_ops node nil = ok node
  apply_ops node (cons op ops) = elim (apply_pointer_op node op) [
    | err e ↦ err e
    | ok next ↦ apply_ops next ops
  ]
