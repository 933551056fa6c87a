-- ===== src/Overlay/Merged.antt =====
-- What a merged seed document holds.
use vendorfake.Prelude.{
  String, ◌≡◌, refl, ◌∙◌, ap, true, false, not, Option, none, some, List, [], ◌∷◌, keep, arith,
  if◌then◌else◌, Bool-cases, Option-cases, inl, inr, subst,
}
use vendorfake.Text.{text_eq, text_eq_iff, mem_text, mem-keep, mem-sorted, sorted}
use vendorfake.Dict
use vendorfake.Dict.{Dict}
use vendorfake.Dict.Laws.{get-put, get-pop, NodupKeys, has-eq-get, has-keys, get_of_not_has}
use vendorfake.Json.{Value, null, bool, int, str, arr, obj, Fields, end, field, to_dict, of_dict}
use vendorfake.Errors.{ok}
use vendorfake.Overlay.Defs.{
  merge_seed, unknown_collections, apply_seed_overlay, lay_over, any_name,
}

-- What stands under a key after the merge, from what stood there in the base and in the overlay.
abbrev pub laid : Option Value → Option Value → Option Value
laid previous none = previous
laid previous (some null) = none
laid (some (obj previous)) (some (obj fs)) = some (obj (of_dict (merge_seed (to_dict previous) fs)))
laid previous (some v) = some v

-- One field of the overlay.
abbrev lay_field : Dict Value → String → Value → Dict Value
lay_field d key v = elim (laid (Dict.get d key) (some v)) [
  | none ↦ Dict.pop d key
  | some w ↦ Dict.put d key w
]

object_field :
    (d : Dict Value) (key : String) (fs rest : Fields) (previous : Option Value)
    → Dict.get d key ≡ previous
    → merge_seed d (field key (obj fs) rest) ≡ merge_seed (lay_field d key (obj fs)) rest
unfolding merge_seed
object_field d key fs rest none e = rw (e, merge_seed, lay_field) refl
object_field d key fs rest (some null) e = rw (e, merge_seed, lay_field) refl
object_field d key fs rest (some (bool b)) e = rw (e, merge_seed, lay_field) refl
object_field d key fs rest (some (int n)) e = rw (e, merge_seed, lay_field) refl
object_field d key fs rest (some (str t)) e = rw (e, merge_seed, lay_field) refl
object_field d key fs rest (some (arr vs)) e = rw (e, merge_seed, lay_field) refl
object_field d key fs rest (some (obj gs)) e = rw (e, merge_seed, lay_field) refl

merge_seed-field :
    (d : Dict Value) (key : String) (v : Value) (rest : Fields)
    → merge_seed d (field key v rest) ≡ merge_seed (lay_field d key v) rest
unfolding merge_seed
merge_seed-field d key null rest = refl
merge_seed-field d key (bool b) rest = refl
merge_seed-field d key (int n) rest = refl
merge_seed-field d key (str t) rest = refl
merge_seed-field d key (arr vs) rest = refl
merge_seed-field d key (obj fs) rest = object_field d key fs rest (Dict.get d key) refl

get-lay_field :
    (d : Dict Value) (key k : String) (v : Value)
    → Dict.get (lay_field d key v) k
      ≡ (if text_eq key k then laid (Dict.get d key) (some v) else Dict.get d k)
get-lay_field d key k v = elim (Option-cases (laid (Dict.get d key) (some v))) [
  | inl removed ↦ ground (arith, removed, get-pop d key k)
  | inr (w, written) ↦ ground (arith, written, get-put d key k w)
]

-- Under each key stands what the rule for one key makes of what the base and the overlay, whose
-- keys are distinct, have there: nothing in the overlay leaves the base, `null` deletes, two
-- objects merge by the same rule, and any other value of the overlay replaces the base's.
pub get-merge_seed :
    (base : Dict Value) (overlay : Fields) (k : String)
    → NodupKeys (to_dict overlay)
    → Dict.get (merge_seed base overlay) k ≡ laid (Dict.get base k) (Dict.get (to_dict overlay) k)
unfolding merge_seed Dict.get
get-merge_seed base end k unique = refl
get-merge_seed base (field key v rest) k unique =
    let later = get-merge_seed (lay_field base key v) rest k unique.1 in
    let now = get-lay_field base key k v in
    ap (λ d. Dict.get d k) (merge_seed-field base key v rest)
    ∙ later
    ∙ elim (Bool-cases (text_eq key k)) [
      | inl same ↦
          let equal : key ≡ k = (text_eq_iff key k).0 same in
          let at_key = ap (λ j. laid (Dict.get base j) (some v)) equal in
          let once : Dict.get (to_dict rest) k ≡ none =
            get_of_not_has (to_dict rest) k
              (subst (λ j. Dict.has (to_dict rest) j ≡ false) equal unique.0) in
          rw (now, same, once) at_key
      | inr other ↦ rw (now, other) refl
    ]

laid-none :
    (previous : Option Value) (v : Option Value)
    → previous ≡ none
    → v ≡ none
    → laid previous v ≡ none
laid-none previous v e h = rw (e, h) refl

none_named : (ns : List String) (k : String) → any_name ns ≡ false → mem_text k ns ≡ false
none_named [] k h = refl
none_named (n ∷ ns) k h = cc

-- An overlay that is accepted names only collections of the base.
known :
    (base : Dict Value) (overlay : Fields) (d : Dict Value) (k : String)
    → lay_over base overlay ≡ ok (some d)
    → (Dict.has (to_dict overlay) k ≡ true → Dict.has base k ≡ true) × (d ≡ merge_seed base overlay)
unfolding lay_over unknown_collections
known base overlay d k h =
    let names = Dict.keys (to_dict overlay) in
    let unknown = keep (λ key. not (Dict.has base key)) names in
    let none_left : any_name (sorted unknown) ≡ false = ground arith in
    (
      λ there. ground (
        arith,
        none_named (sorted unknown) k none_left,
        mem-sorted k unknown,
        mem-keep (λ key. not (Dict.has base key)) k names,
        has-keys (to_dict overlay) k,
      ),
      ground (arith, none_left),
    )

-- An overlay that is accepted for a seed document names only collections that the document has,
-- and the result is the merge of the two; so it holds no collection that the document has not.
pub apply_seed_overlay-collections :
    (base overlay : Fields) (d : Dict Value) (k : String)
    → NodupKeys (to_dict overlay)
    → apply_seed_overlay (some (obj base)) overlay ≡ ok (some d)
    → (Dict.has (to_dict overlay) k ≡ true → Dict.has (to_dict base) k ≡ true)
      × (Dict.get d k ≡ laid (Dict.get (to_dict base) k) (Dict.get (to_dict overlay) k))
      × (Dict.has d k ≡ true → Dict.has (to_dict base) k ≡ true)
unfolding apply_seed_overlay
apply_seed_overlay-collections base overlay d k unique h =
    let (names, merged) = known (to_dict base) overlay d k h in
    let value = ap (λ e. Dict.get e k) merged ∙ get-merge_seed (to_dict base) overlay k unique in
    (
      names,
      value,
      λ there. ground (
        arith,
        value,
        names,
        has-eq-get d k,
        has-eq-get (to_dict base) k,
        has-eq-get (to_dict overlay) k,
        laid-none (Dict.get (to_dict base) k) (Dict.get (to_dict overlay) k),
        there,
      ),
    )
