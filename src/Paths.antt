-- ===== src/Paths.antt =====
-- `dot_get` of core/util/paths.py.
use Prim.Native.Char.{code}
use Prim.Native.String.{◌∷◌ as push_front}
use vendorfake.Prelude.{
  ℕ, zero, suc, ◌+◌, ◌-◌, ◌*◌, String, Bool, true, false, ◌&&◌, ◌||◌, Option, none, some, List, [],
  ◌∷◌, leb, ◌==◌, ◌≡◌, refl, ap, ◌∙◌, arith, if◌then◌else◌,
}
use vendorfake.Text.{text_eq}
use vendorfake.Dict
use vendorfake.Json.{Value, Items, nil, cons, obj, arr, null, to_dict, Fields}

-- `text.split(separator)`, of a separator of one character.
unfoldable pub split_on : ℕ → String → List String
split_on separator String.[] = "" ∷ []
split_on separator (String.◌∷◌ c s) = elim (split_on separator s) [
  | [] ↦ []
  | w ∷ ws ↦ if code c == separator then "" ∷ w ∷ ws else push_front c w ∷ ws
]

-- The characters of a text up to one that a test finds, and those from it on.
unfoldable pub cut_at : (ℕ → Bool) → String → String × String
cut_at stops String.[] = ("", "")
cut_at stops (String.◌∷◌ c s) =
    let (before, behind) = cut_at stops s in
    if stops (code c) then ("", push_front c s) else (push_front c before, behind)

abbrev pub is_bracket : ℕ → Bool
is_bracket c = c == b'[' || c == b']'

-- A segment: a name and its subscripts.
pub record Segment : Type 0 where
  pub name : String
  pub subscripts : List String

-- The end of a segment; `$` stands also before a last line feed.
abbrev pub at_end : String → Bool
at_end String.[] = true
at_end (String.◌∷◌ c s) = code c == 10 && text_eq s ""

abbrev pub with_subscript : String → Option (List String) → Option (List String)
with_subscript subscript none = none
with_subscript subscript (some rest) = some (subscript ∷ rest)

-- `((?:\[[^\]]+\])*)$`; each subscript is at least three characters, so the text's length is enough
-- fuel.
unfoldable pub read_subscripts : ℕ → String → Option (List String)
unfolding cut_at
read_subscripts zero text = none
read_subscripts (suc fuel) text = if at_end text then some [] else elim text [
  | String.[] ↦ some []
  | String.◌∷◌ c s ↦
      if code c == b'['
      then (let (subscript, behind) = cut_at (λ d. d == b']') s in
          elim behind [
            | String.[] ↦ none
            | String.◌∷◌ bracket rest ↦
                if text_eq subscript ""
                then none
                else with_subscript subscript (read_subscripts fuel rest)
          ])
      else none
]

unfoldable pub size_of : String → ℕ
size_of String.[] = 0
size_of (String.◌∷◌ c s) = size_of s + 1

-- `_SEGMENT.match(segment)`
unfoldable pub read_segment : String → Option Segment
unfolding cut_at read_subscripts size_of
read_segment text =
    let (name, behind) = cut_at is_bracket text in
    if text_eq name "" then none else elim (read_subscripts (size_of behind + 1) behind) [
      | none ↦ none
      | some subscripts ↦ some (record { name = name; subscripts = subscripts })
    ]

-- `int(key)` of a key of ASCII digits, or `none`; `n` is the number read so far.
unfoldable pub read_digits : ℕ → String → Option ℕ
read_digits n String.[] = some n
read_digits n (String.◌∷◌ c s) =
    let rest = read_digits (n * 10 + (code c - b'0')) s in
    if leb b'0' (code c) && leb (code c) b'9' then rest else none

abbrev pub position_of : String → Option ℕ
position_of String.[] = none
position_of (String.◌∷◌ c s) = read_digits 0 (push_front c s)

unfoldable pub item : Items → ℕ → Option Value
item nil n = none
item (cons v vs) zero = some v
item (cons v vs) (suc n) = item vs n

-- `_index`
unfoldable pub index : Value → String → Option Value
unfolding read_digits item
index (obj fields) key = Dict.get (to_dict fields) key
index (arr vs) key = elim (position_of key) [ none ↦ none | some n ↦ item vs n ]
index v key = none

unfoldable pub index_all : Value → List String → Option Value
unfolding index
index_all v [] = some v
index_all v (key ∷ keys) = elim (index v key) [ none ↦ none | some w ↦ index_all w keys ]

-- The loop over the segments.
unfoldable pub walk : Value → List String → Option Value
unfolding index_all read_segment
walk v [] = some v
walk v (segment ∷ segments) = elim (read_segment segment) [
  | none ↦ none
  | some s ↦ elim (index_all v (s.name ∷ s.subscripts)) [ none ↦ none | some w ↦ walk w segments ]
]

-- `dot_get`
unfoldable pub dot_get : Value → String → Option Value
unfolding walk split_on
dot_get null path = none
dot_get v path = walk v (split_on b'.' path)

-- No character of the text is a dot or a bracket.
unfoldable pub IsPlain : String → Type 0
IsPlain String.[] = Unit
IsPlain (String.◌∷◌ c s) = ((code c == b'.' || is_bracket (code c)) ≡ false) × IsPlain s

split_on-IsPlain : (name : String) → IsPlain name → split_on b'.' name ≡ name ∷ []
unfolding split_on IsPlain
split_on-IsPlain String.[] h = refl
split_on-IsPlain (String.◌∷◌ c s) h = ground (arith, split_on-IsPlain s h.1)

cut_at-IsPlain : (name : String) → IsPlain name → cut_at is_bracket name ≡ (name, "")
unfolding cut_at IsPlain
cut_at-IsPlain String.[] h = refl
cut_at-IsPlain (String.◌∷◌ c s) h = ground (arith, cut_at-IsPlain s h.1)

abbrev again : Option Value → Option Value
again o = elim o as (λ x. Option Value) [ none ↦ none | some w ↦ some w ]

abbrev onward : Option Value → Option Value
onward o = again (again o)

onward_lem : (o : Option Value) → onward o ≡ o
onward_lem none = refl
onward_lem (some v) = refl

-- A path that is a nonempty name without dots and brackets reads that field of an object, and is
-- missing exactly if the object lacks it.
pub dot_get-IsPlain :
    (fields : Fields) (name : String)
    → IsPlain name
    → text_eq name "" ≡ false
    → dot_get (obj fields) name ≡ Dict.get (to_dict fields) name
unfolding dot_get walk read_segment read_subscripts index_all index size_of
dot_get-IsPlain fields name h named =
    rw (split_on-IsPlain name h, cut_at-IsPlain name h, named, dot_get, walk, read_segment)
      (ap (λ (p : String × String). onward (Dict.get (to_dict fields) p.0)) (cut_at-IsPlain name h)
        ∙ onward_lem (Dict.get (to_dict fields) name))
