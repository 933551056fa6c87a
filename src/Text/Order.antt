-- ===== src/Text/Order.antt =====
-- `sorted(texts)` of Python: an insertion sort by code points.
use Prim.Native.Char.{code}
use text.Mathlib.Text.{◌==◌ as str_eq}
use text.Mathlib.TextEquality.{eq_iff}
use text.Mathlib.TextPositions.{eq_refl}
use vendorfake.Prelude.{
  String, ◌≡◌, refl, ◌⊎◌, inl, inr, ◌↔◌, Bool, true, false, List, [], ◌∷◌, arith, ltb, ◌==◌, ◌||◌,
  ◌&&◌, ◌++◌, keep, ap, if◌then◌else◌, Bool-cases,
}

abbrev pub text_eq : String → String → Bool
text_eq s t = str_eq s t

pub text_eq_iff : (s t : String) → (text_eq s t ≡ true) ↔ (s ≡ t)
text_eq_iff = eq_iff

pub text_eq_refl : (s : String) → text_eq s s ≡ true
text_eq_refl = eq_refl

pub text_eq_comm : (s t : String) → text_eq s t ≡ text_eq t s
text_eq_comm s t = ground (arith, eq_iff s t, eq_iff t s)

-- `s <= t`
unfoldable pub text_le : String → String → Bool
text_le String.[] t = true
text_le (String.◌∷◌ c s) String.[] = false
text_le (String.◌∷◌ c s) (String.◌∷◌ d t) =
    let rest = text_le s t in
    if ltb (code c) (code d) then true else if code c == code d then rest else false

pub text_le_total : (s t : String) → (text_le s t ≡ true) ⊎ (text_le t s ≡ true)
unfolding text_le
text_le_total String.[] t = inl refl
text_le_total (String.◌∷◌ c s) String.[] = inr refl
text_le_total (String.◌∷◌ c s) (String.◌∷◌ d t) = ground (arith, text_le_total s t)

unfoldable pub insert_sorted : String → List String → List String
insert_sorted x [] = x ∷ []
insert_sorted x (y ∷ ys) = if text_le x y then x ∷ y ∷ ys else y ∷ insert_sorted x ys

unfoldable pub sorted : List String → List String
unfolding insert_sorted
sorted [] = []
sorted (x ∷ xs) = insert_sorted x (sorted xs)

-- `x in xs`
abbrev pub mem_text : String → List String → Bool
mem_text x [] = false
mem_text x (y ∷ ys) = text_eq y x || mem_text x ys

abbrev pub Member : String → List String → Type 0
Member x [] = ⊥
Member x (y ∷ ys) = (y ≡ x) ⊎ Member x ys

pub mem_text_iff : (x : String) (xs : List String) → (mem_text x xs ≡ true) ↔ Member x xs
mem_text_iff x [] = (λ e. cc, λ h. absurd h)
mem_text_iff x (y ∷ ys) = (
  λ e. elim (Bool-cases (text_eq y x)) [
    | inl same ↦ inl ((eq_iff y x).0 same)
    | inr other ↦ inr ((mem_text_iff x ys).0 (rw other at e))
  ],
  λ h. elim h [
    | inl same ↦ rw ((eq_iff y x).1 same)
    | inr later ↦ ground (arith, (mem_text_iff x ys).1 later)
  ],
)

pub mem-append :
    (k : String) (xs ys : List String) → mem_text k (xs ++ ys) ≡ (mem_text k xs || mem_text k ys)
mem-append k [] ys = refl
mem-append k (x ∷ xs) ys = ground (arith, mem-append k xs ys)

pub mem-keep :
    (p : String → Bool) (k : String) (xs : List String)
    → mem_text k (keep p xs) ≡ (mem_text k xs && p k)
mem-keep p k [] = refl
mem-keep p k (x ∷ xs) = elim (Bool-cases (text_eq x k)) [
  | inl same ↦
      let e : p x ≡ p k = ap p ((eq_iff x k).0 same) in ground (arith, mem-keep p k xs, e, same)
  | inr other ↦ ground (arith, mem-keep p k xs, other)
]

-- Each text is at most the one behind it.
abbrev pub SortedText : List String → Type 0
SortedText [] = Unit
SortedText (x ∷ []) = Unit
SortedText (x ∷ y ∷ ys) = (text_le x y ≡ true) × SortedText (y ∷ ys)

insert_sorted-SortedText :
    (x : String) (xs : List String) → SortedText xs → SortedText (insert_sorted x xs)
unfolding insert_sorted
insert_sorted-SortedText x [] h = tt
insert_sorted-SortedText x (y ∷ []) h = ground (arith, text_le_total x y)
insert_sorted-SortedText x (y ∷ z ∷ zs) h =
    ground (arith, text_le_total x y, text_le_total x z, insert_sorted-SortedText x (z ∷ zs) h.1)

pub sorted-SortedText : (xs : List String) → SortedText (sorted xs)
unfolding sorted
sorted-SortedText [] = tt
sorted-SortedText (x ∷ xs) = insert_sorted-SortedText x (sorted xs) (sorted-SortedText xs)

mem-insert_sorted :
    (k x : String) (xs : List String)
    → mem_text k (insert_sorted x xs) ≡ (text_eq x k || mem_text k xs)
unfolding insert_sorted
mem-insert_sorted k x [] = refl
mem-insert_sorted k x (y ∷ ys) = ground (arith, mem-insert_sorted k x ys)

-- `sorted` keeps the texts.
pub mem-sorted : (k : String) (xs : List String) → mem_text k (sorted xs) ≡ mem_text k xs
unfolding sorted
mem-sorted k [] = refl
mem-sorted k (x ∷ xs) = rw (mem-insert_sorted, mem-sorted k xs)
