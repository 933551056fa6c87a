-- ===== src/Square/Tests.antt =====
-- Merges of small orders, square/surface/orders.py, and the theorem at work on them.
use vendorfake.Prelude.{◌≡◌, refl, String, true, List, [], ◌∷◌}
use vendorfake.Dict
use vendorfake.Json.{Value, str}
use vendorfake.Errors.{ok, err}
use vendorfake.Square.Lines.{
  Line, LinePatch, assigned, cleared, incomplete_line, merge_patch, merge_patches, read_lines,
  uid_of, index_lines, merge_line_items,
}
use vendorfake.Square.Merging.{IsMerged, merge_line_items-IsMerged}

abbrev text_of : Value → String
text_of v = "?"

abbrev line : String → String → Line
line uid name = ("uid", str uid) ∷ ("name", str name) ∷ []

abbrev existing : List Line
existing = line "a" "tea" ∷ line "b" "cake" ∷ []

abbrev renamed : LinePatch
renamed = record { uid = "a"; assign = ("note", str "hot") ∷ []; clear = "name" ∷ [] }

abbrev added : LinePatch
added = record {
  uid = "c";
  assign = ("quantity", str "1") ∷ ("base_price_money", str "5") ∷ [];
  clear = [];
}

abbrev partial : LinePatch
partial = record { uid = "c"; assign = ("quantity", str "1") ∷ []; clear = [] }

abbrev merged : List Line
merged =
    (("uid", str "a") ∷ ("note", str "hot") ∷ [])
    ∷ line "b" "cake"
    ∷ (("uid", str "c") ∷ ("quantity", str "1") ∷ ("base_price_money", str "5") ∷ [])
    ∷ []

keeps_positions : merge_line_items text_of existing (added ∷ renamed ∷ []) ≡ ok merged
unfolding merge_line_items index_lines merge_patches merge_patch read_lines uid_of assigned cleared
    Dict.has Dict.get Dict.put Dict.pop
keeps_positions = refl

refuses_partial : merge_line_items text_of existing (renamed ∷ partial ∷ []) ≡ err incomplete_line
unfolding merge_line_items index_lines merge_patches merge_patch read_lines uid_of assigned cleared
    Dict.has Dict.get Dict.put Dict.pop
refuses_partial = refl

merge_line_items-IsMerged_example :
    IsMerged text_of existing
      (added ∷ renamed ∷ [])
      true
      (merge_line_items text_of existing (added ∷ renamed ∷ []))
unfolding uid_of Dict.has Dict.get
merge_line_items-IsMerged_example =
    merge_line_items-IsMerged text_of existing (added ∷ renamed ∷ [])
