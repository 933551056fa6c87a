-- ===== src/Square/Turns.antt =====
-- The loop over the patches of `_merge_line_items`, square/surface/orders.py, one uid at a time.
use vendorfake.Prelude.{
  ◌≡◌, refl, sym, ap, ◌∙◌, subst, String, Bool, true, false, ◌&&◌, Option, none, some, List, [],
  ◌∷◌, ◌++◌, append-nil, append_assoc, arith, if◌then◌else◌, Bool-cases, Option-cases, inl, inr,
}
use vendorfake.Text.{text_eq, text_eq_iff, mem_text, mem-append}
use vendorfake.Dict
use vendorfake.Dict.{Dict}
use vendorfake.Dict.Laws.{get-put, has-put, has-eq-get}
use vendorfake.Errors.{Result, ok, err}
use vendorfake.Square.Lines.{
  Line, LinePatch, Merge, new_line, changed_line, is_complete, incomplete_line, merge_patch,
  merge_patches,
}

-- The uids of the patches that name no line, each once, in order.
abbrev pub fresh : List String → List LinePatch → List String
fresh known [] = []
fresh known (p ∷ ps) =
    let later = fresh (known ++ p.uid ∷ []) ps in
    if mem_text p.uid known then fresh known ps else p.uid ∷ later

-- Each patch that names no line is complete.
abbrev pub admitted : List String → List LinePatch → Bool
admitted known [] = true
admitted known (p ∷ ps) =
    let later = admitted (known ++ p.uid ∷ []) ps in
    if mem_text p.uid known then admitted known ps else is_complete p && later

abbrev pub patched : LinePatch → Option Line → Line
patched p none = new_line p
patched p (some prior) = changed_line p prior

-- The line of a uid after the patches that name it.
abbrev pub patched_all : String → List LinePatch → Option Line → Option Line
patched_all uid [] line = line
patched_all uid (p ∷ ps) line =
    patched_all uid ps (if text_eq p.uid uid then some (patched p line) else line)

-- The uids listed so far are those that have a line.
abbrev pub IsIndex : Merge → Type 0
IsIndex m = (uid : String) → Dict.has m.by_uid uid ≡ mem_text uid m.order

pub record Grown (m : Merge) (uids : List String) (at : String → Option Line) (r : Merge)
    : Type 0 where
  pub ordered : r.order ≡ m.order ++ uids
  pub lines : (uid : String) → Dict.get r.by_uid uid ≡ at uid
  pub index : IsIndex r

abbrev pub Merges : Merge → List LinePatch → Bool → Result Merge → Type 0
Merges m ps false r = r ≡ err incomplete_line
Merges m ps true r =
    (next : Merge) × (r ≡ ok next)
    × Grown m (fresh m.order ps) (λ uid. patched_all uid ps (Dict.get m.by_uid uid)) next

add_known : Merge → LinePatch → Line → Merge
add_known m p line = record m { by_uid = Dict.put m.by_uid p.uid line }

IsIndex-known :
    (m : Merge) (p : LinePatch) (line : Line)
    → IsIndex m
    → mem_text p.uid m.order ≡ true
    → IsIndex (add_known m p line)
unfolding add_known
IsIndex-known m p line i known uid =
    has-put m.by_uid p.uid uid line ∙ elim (Bool-cases (text_eq p.uid uid)) [
      | inl same ↦
          rw same
            (sym (subst (λ u. mem_text u m.order ≡ true) ((text_eq_iff p.uid uid).0 same) known))
      | inr other ↦ rw other (i uid)
    ]

unfoldable pub appended : Merge → String → Line → Merge
appended m uid line = record { by_uid = Dict.put m.by_uid uid line; order = m.order ++ uid ∷ [] }

pub IsIndex-appended :
    (m : Merge) (added : String) (line : Line) → IsIndex m → IsIndex (appended m added line)
unfolding appended
IsIndex-appended m added line i uid =
    has-put m.by_uid added uid line ∙ ground (arith, i uid, mem-append uid m.order (added ∷ []))

-- What a turn does to the line of a uid.
abbrev turned : LinePatch → String → Option Line → Option Line
turned p uid line = if text_eq p.uid uid then some (patched p line) else line

line_of-turned :
    (m : Merge) (p : LinePatch) (uid : String)
    → Dict.get (Dict.put m.by_uid p.uid (patched p (Dict.get m.by_uid p.uid))) uid
      ≡ turned p uid (Dict.get m.by_uid uid)
line_of-turned m p uid =
    get-put m.by_uid p.uid uid (patched p (Dict.get m.by_uid p.uid))
    ∙ elim (Bool-cases (text_eq p.uid uid)) [
      | inl same ↦
          rw same
            (ap (λ u. some (patched p (Dict.get m.by_uid u))) ((text_eq_iff p.uid uid).0 same))
      | inr other ↦ rw other refl
    ]

Merges-turned :
    (m next : Merge) (p : LinePatch) (ps : List LinePatch) (b : Bool) (r : Result Merge)
    → next.order ++ fresh next.order ps ≡ m.order ++ fresh m.order (p ∷ ps)
    → ((uid : String) → Dict.get next.by_uid uid ≡ turned p uid (Dict.get m.by_uid uid))
    → Merges next ps b r
    → Merges m (p ∷ ps) b r
Merges-turned m next p ps false r orders turns h = h
Merges-turned m next p ps true r orders turns (last, returned, grown) = (
  last,
  returned,
  record {
    ordered = grown.ordered ∙ orders;
    lines = λ uid. grown.lines uid ∙ ap (patched_all uid ps) (turns uid);
    index = grown.index;
  },
)

-- One turn of the loop, by what the patch names.
step : Merge → LinePatch → List LinePatch → Option Line → Bool → Result Merge
step m p ps none false = err incomplete_line
step m p ps none true = merge_patches (appended m p.uid (new_line p)) ps
step m p ps (some prior) complete = merge_patches (add_known m p (changed_line p prior)) ps

step_lem :
    (m : Merge) (p : LinePatch) (ps : List LinePatch) (line : Option Line) (complete : Bool)
    → Dict.get m.by_uid p.uid ≡ line
    → is_complete p ≡ complete
    → merge_patches m (p ∷ ps) ≡ step m p ps line complete
unfolding merge_patches merge_patch appended add_known step
step_lem m p ps none false h c = rw (h, c, merge_patches, merge_patch) refl
step_lem m p ps none true h c = rw (h, c, merge_patches, merge_patch) refl
step_lem m p ps (some prior) complete h c = rw (h, merge_patches, merge_patch) refl

pub merge_patches-Merges :
    (ps : List LinePatch) (m : Merge)
    → IsIndex m
    → Merges m ps (admitted m.order ps) (merge_patches m ps)
unfolding merge_patches add_known appended step
merge_patches-Merges [] m i =
    (m, refl, record { ordered = sym (append-nil m.order); lines = λ uid. refl; index = i })
merge_patches-Merges (p ∷ ps) m i = elim (Option-cases (Dict.get m.by_uid p.uid)) [
  | inl missing ↦
      let named : mem_text p.uid m.order ≡ false =
        sym (i p.uid)
        ∙ has-eq-get m.by_uid p.uid
        ∙ ap (λ (o : Option Line). elim o [ none ↦ false | some _ ↦ true ]) missing in
      elim (Bool-cases (is_complete p)) [
        | inl complete ↦
            rw (step_lem m p ps none true missing complete, named, complete)
              (Merges-turned m (appended m p.uid (new_line p)) p ps
                (admitted (m.order ++ p.uid ∷ []) ps)
                (merge_patches (appended m p.uid (new_line p)) ps)
                (rw named (append_assoc m.order (p.uid ∷ []) (fresh (m.order ++ p.uid ∷ []) ps)))
                (λ uid. rw missing at (line_of-turned m p uid))
                (merge_patches-Merges ps (appended m p.uid (new_line p))
                  (IsIndex-appended m p.uid (new_line p) i)))
        | inr partial ↦ rw (step_lem m p ps none false missing partial, named, partial) refl
      ]
  | inr (prior, found) ↦
      let named : mem_text p.uid m.order ≡ true =
        sym (i p.uid)
        ∙ has-eq-get m.by_uid p.uid
        ∙ ap (λ (o : Option Line). elim o [ none ↦ false | some _ ↦ true ]) found in
      let next = add_known m p (changed_line p prior) in
      rw (step_lem m p ps (some prior) (is_complete p) found refl, named)
        (Merges-turned m next p ps (admitted m.order ps) (merge_patches next ps) (rw named refl)
          (λ uid. rw found at (line_of-turned m p uid))
          (merge_patches-Merges ps next (IsIndex-known m p (changed_line p prior) i named)))
]
