-- ===== src/Square/Merging.antt =====
-- What `_merge_line_items` of square/surface/orders.py gives, one uid at a time.
use vendorfake.Prelude.{
  ◌≡◌, refl, sym, ap, ◌∙◌, subst, fun_ext, String, Bool, true, false, Option, none, some, List, [],
  ◌∷◌, ◌++◌, append-nil, append_assoc, map, arith, if◌then◌else◌, Option-cases, inl, inr,
}
use vendorfake.Text.{text_eq, text_eq_refl, mem_text}
use vendorfake.Dict
use vendorfake.Dict.{Dict}
use vendorfake.Dict.Laws.{get-put, has-eq-get}
use vendorfake.Json.{Value}
use vendorfake.Errors.{Result, ok, err, ◌>>=◌}
use vendorfake.Square.Lines.{
  Line, LinePatch, Merge, incomplete_line, merge_patches, read_lines, uid_of, index_lines,
  merge_line_items,
}
use vendorfake.Square.Turns.{
  fresh, admitted, patched_all, Grown, IsIndex, appended, IsIndex-appended, Merges,
  merge_patches-Merges,
}

-- The last of the lines that has the uid.
abbrev pub recorded : (Value → String) → String → List Line → Option Line → Option Line
recorded text_of uid [] line = line
recorded text_of uid (found ∷ lines) line =
    recorded text_of uid lines (if text_eq (uid_of text_of found) uid then some found else line)

read_lines_lem :
    (by_uid : Dict Line) (uids : List String)
    → ((uid : String) → mem_text uid uids ≡ true → Dict.has by_uid uid ≡ true)
    → (lines : List Line) × (read_lines by_uid uids ≡ ok lines)
      × (map some lines ≡ map (Dict.get by_uid) uids)
unfolding read_lines
read_lines_lem by_uid [] h = ([], refl, refl)
read_lines_lem by_uid (uid ∷ uids) h =
    let (lines, read, same) = read_lines_lem by_uid uids (λ other m. h other (ground (arith, m))) in
    elim (Option-cases (Dict.get by_uid uid)) [
      | inl missing ↦
          let present = h uid (rw (text_eq_refl uid) refl) in
          let absent =
            has-eq-get by_uid uid
            ∙ ap (λ (o : Option Line). elim o [ none ↦ false | some _ ↦ true ]) missing in
          cc
      | inr (line, found) ↦ (line ∷ lines, rw (found, read, read_lines) refl, rw (found, same) refl)
    ]

module _ (text_of : Value → String) where
  index_lines-Grown :
      (lines : List Line) (m : Merge)
      → IsIndex m
      → Grown m
          (map (uid_of text_of) lines)
          (λ uid. recorded text_of uid lines (Dict.get m.by_uid uid))
          (index_lines text_of m lines)
  unfolding index_lines appended
  index_lines-Grown [] m i = record {
    ordered = sym (append-nil m.order);
    lines = λ uid. refl;
    index = i;
  }
  index_lines-Grown (line ∷ lines) m i =
      let named = uid_of text_of line in
      let grown =
        index_lines-Grown lines (appended m named line) (IsIndex-appended m named line i) in
      record {
        ordered = grown.ordered ∙ append_assoc m.order (named ∷ []) (map (uid_of text_of) lines);
        lines = λ uid.
            grown.lines uid ∙ ap (recorded text_of uid lines) (get-put m.by_uid named uid line);
        index = grown.index;
      }

  -- What the merge of lines and patches gives: where every patch of a new line is complete, the uids
  -- of the lines in their order and the new ones behind them, each with its last line as the patches
  -- that name it change it.
  abbrev pub IsMerged : List Line → List LinePatch → Bool → Result (List Line) → Type 0
  IsMerged existing patches false r = r ≡ err incomplete_line
  IsMerged existing patches true r =
      let known = map (uid_of text_of) existing in
      (lines : List Line) × (r ≡ ok lines)
      × (map some lines
          ≡ map (λ uid. patched_all uid patches (recorded text_of uid existing none))
              (known ++ fresh known patches))

  read-IsMerged :
      (existing : List Line) (patches : List LinePatch) (m : Merge) (b : Bool) (r : Result Merge)
      → m.order ≡ map (uid_of text_of) existing
      → ((uid : String) → Dict.get m.by_uid uid ≡ recorded text_of uid existing none)
      → Merges m patches b r
      → IsMerged existing patches b (r >>= λ merged. read_lines merged.by_uid merged.order)
  read-IsMerged existing patches m false r orders finds h = rw h refl
  read-IsMerged existing patches m true r orders finds (last, returned, grown) =
      let (lines, read, same) =
        read_lines_lem last.by_uid last.order (λ uid listed. grown.index uid ∙ listed) in
      let values = fun_ext (λ uid. grown.lines uid ∙ ap (patched_all uid patches) (finds uid)) in
      let uids = grown.ordered ∙ ap (λ known. known ++ fresh known patches) orders in
      (
        lines,
        rw returned read,
        same
            ∙ ap (λ at. map at last.order) values
            ∙ ap (map (λ uid. patched_all uid patches (recorded text_of uid existing none))) uids,
      )

  -- `_merge_line_items` raises exactly if a patch that names no line lacks its quantity or its price;
  -- else it returns the lines of `IsMerged`: positions are kept, and a line depends on the patches
  -- of its own uid alone.
  pub merge_line_items-IsMerged :
      (existing : List Line) (patches : List LinePatch)
      → IsMerged existing patches
          (admitted (map (uid_of text_of) existing) patches)
          (merge_line_items text_of existing patches)
  unfolding merge_line_items Dict.has Dict.get
  merge_line_items-IsMerged existing patches =
      let start : Merge = record { by_uid = []; order = [] } in
      let grown = index_lines-Grown existing start (λ uid. refl) in
      let indexed = index_lines text_of start existing in
      subst
        (λ known.
          IsMerged existing patches (admitted known patches)
            (merge_line_items text_of existing patches))
        grown.ordered
        (read-IsMerged existing patches indexed (admitted indexed.order patches)
          (merge_patches indexed patches) grown.ordered grown.lines
          (merge_patches-Merges patches indexed grown.index))
