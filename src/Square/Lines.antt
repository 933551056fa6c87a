-- ===== src/Square/Lines.antt =====
-- The sparse merge of an order's lines, `_merge_line_items` of square/surface/orders.py.
use vendorfake.Prelude.{String, Bool, true, false, ◌&&◌, none, some, List, [], ◌∷◌, ◌++◌}
use vendorfake.Dict
use vendorfake.Dict.{Dict}
use vendorfake.Json.{Value, null, str}
use vendorfake.Errors.{Result, ok, err, ◌>>=◌, Error, unit_error, missing_field, key_error}

abbrev pub Line : Type 0
Line = Dict Value

-- `_LinePatch`
pub record LinePatch : Type 0 where
  pub uid : String
  pub assign : Dict Value
  pub clear : List String

-- `by_uid` and `order`
pub record Merge : Type 0 where
  pub by_uid : Dict Line
  pub order : List String

-- `{**line, **assign}`
unfoldable pub assigned : Line → Dict Value → Line
assigned line [] = line
assigned line ((name, v) ∷ assign) = assigned (Dict.put line name v) assign

-- `for name in clear: merged.pop(name, None)`
unfoldable pub cleared : Line → List String → Line
cleared line [] = line
cleared line (name ∷ names) = cleared (Dict.pop line name) names

abbrev pub new_line : LinePatch → Line
new_line p = assigned (("uid", str p.uid) ∷ []) p.assign

abbrev pub changed_line : LinePatch → Line → Line
changed_line p prior = cleared (assigned prior p.assign) p.clear

abbrev pub is_complete : LinePatch → Bool
is_complete p = Dict.has p.assign "quantity" && Dict.has p.assign "base_price_money"

abbrev pub incomplete_line : Error
incomplete_line = unit_error missing_field (some "order.line_items") null

-- One turn of the loop over the patches.
unfoldable pub merge_patch : Merge → LinePatch → Result Merge
merge_patch m p = elim (Dict.get m.by_uid p.uid) [
  | none ↦ elim (is_complete p) [
    | false ↦ err incomplete_line
    | true ↦
        ok (record { by_uid = Dict.put m.by_uid p.uid (new_line p); order = m.order ++ p.uid ∷ [] })
  ]
  | some prior ↦ ok (record m { by_uid = Dict.put m.by_uid p.uid (changed_line p prior) })
]

unfoldable pub merge_patches : Merge → List LinePatch → Result Merge
unfolding merge_patch
merge_patches m [] = ok m
merge_patches m (p ∷ ps) = merge_patch m p >>= λ next. merge_patches next ps

-- `[by_uid[uid] for uid in order]`; a missing key raises.
unfoldable pub read_lines : Dict Line → List String → Result (List Line)
read_lines by_uid [] = ok []
read_lines by_uid (uid ∷ uids) = elim (Dict.get by_uid uid) [
  | none ↦ err key_error
  | some line ↦ read_lines by_uid uids >>= λ lines. ok (line ∷ lines)
]

-- `text_of` is `str` of a uid that is no text.
module _ (text_of : Value → String) where
  -- `str(line.get("uid", ""))`
  unfoldable pub uid_of : Line → String
  uid_of line = elim (Dict.get line "uid") [ none ↦ "" | some (str uid) ↦ uid | some v ↦ text_of v ]

  -- The loop over the lines that are there.
  unfoldable pub index_lines : Merge → List Line → Merge
  index_lines m [] = m
  index_lines m (line ∷ lines) =
      index_lines
        (record {
          by_uid = Dict.put m.by_uid (uid_of line) line;
          order = m.order ++ uid_of line ∷ [];
        })
        lines

  -- `_merge_line_items`
  unfoldable pub merge_line_items : List Line → List LinePatch → Result (List Line)
  unfolding index_lines merge_patches read_lines
  merge_line_items existing patches =
      merge_patches (index_lines (record { by_uid = []; order = [] }) existing) patches >>= λ m.
      read_lines m.by_uid m.order
