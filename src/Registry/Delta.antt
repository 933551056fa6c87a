-- ===== src/Registry/Delta.antt =====
-- `apply_capability_delta`: what a list of `+name` and `-name` makes of a profile.
use vendorfake.Prelude.{
  String, ◌≡◌, refl, ap, ◌∙◌, Bool, true, false, not, List, [], ◌∷◌, keep, any, map, arith,
  if◌then◌else◌, Bool-cases, inl, inr,
}
use vendorfake.Text.{
  text_eq, text_eq_comm, text_eq_iff, text_eq_refl, mem_text, mem-append, mem-keep,
}
use vendorfake.Registry.Parts.{
  Part, plus, minus, bare, is_signed, name_of, add_name, apply_parts, apply_capability_delta,
}

-- Whether a name is in the set after the parts, if it was before them.
abbrev pub last_word : String → List Part → Bool → Bool
last_word n [] before = before
last_word n (minus m ∷ ps) before = last_word n ps (if text_eq m n then false else before)
last_word n (plus m ∷ ps) before = last_word n ps (if text_eq m n then true else before)
last_word n (bare m ∷ ps) before = last_word n ps (if text_eq m n then true else before)

mem-add_name :
    (n m : String) (ns : List String)
    → mem_text n (add_name m ns) ≡ (if text_eq m n then true else mem_text n ns)
mem-add_name n m ns = elim (Bool-cases (text_eq m n)) [
  | inl same ↦
      let equal : m ≡ n = (text_eq_iff m n).0 same in
      ground (arith, same, equal, mem-append n ns (m ∷ []), text_eq_refl n)
  | inr other ↦ ground (arith, other, mem-append n ns (m ∷ []))
]

mem-minus :
    (n m : String) (ns : List String)
    → mem_text n (keep (λ k. not (text_eq k m)) ns) ≡ (if text_eq m n then false else mem_text n ns)
mem-minus n m ns = ground (arith, mem-keep (λ k. not (text_eq k m)) n ns, text_eq_comm n m)

-- Reading the parts from left to right, the last one that names a capability decides on it; a
-- capability that no part names is as it was.
mem-apply_parts :
    (n : String) (ps : List Part) (ns : List String)
    → mem_text n (apply_parts ns ps) ≡ last_word n ps (mem_text n ns)
unfolding apply_parts
mem-apply_parts n [] ns = refl
mem-apply_parts n (minus m ∷ ps) ns =
    mem-apply_parts n ps (keep (λ k. not (text_eq k m)) ns) ∙ ap (last_word n ps) (mem-minus n m ns)
mem-apply_parts n (plus m ∷ ps) ns =
    mem-apply_parts n ps (add_name m ns) ∙ ap (last_word n ps) (mem-add_name n m ns)
mem-apply_parts n (bare m ∷ ps) ns =
    mem-apply_parts n ps (add_name m ns) ∙ ap (last_word n ps) (mem-add_name n m ns)

-- If any part has a sign, the last part that names a capability decides on it, and one that no
-- part names is as in the base; if none has, the result is the named ones alone.
pub mem-apply_capability_delta :
    (n : String) (base : List String) (ps : List Part)
    → mem_text n (apply_capability_delta base ps)
      ≡ (if any is_signed ps then last_word n ps (mem_text n base) else mem_text n (map name_of ps))
unfolding apply_capability_delta
mem-apply_capability_delta n base ps = elim (Bool-cases (any is_signed ps)) [
  | inl signed ↦ rw signed (mem-apply_parts n ps base)
  | inr unsigned ↦ rw unsigned refl
]
