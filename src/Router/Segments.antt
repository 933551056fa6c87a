-- ===== src/Router/Segments.antt =====
-- How a path falls into segments, `split_path` of core/kernel/router.py.
use Prim.Native.Char.{Char, code}
use Prim.Native.String.{◌∷◌ as push_front}
use text.Mathlib.TextEquality.{Char-path}
use vendorfake.Prelude.{
  ◌∙◌, String, ◌≡◌, refl, ap, sym, Bool, true, false, not, ◌&&◌, List, [], ◌∷◌, keep, arith,
  Bool-cases, inl, inr, ◌==◌, All,
}
use vendorfake.Router.Defs.{split_path, split_slash, is_nonempty_text, onto_first}

-- No character is a slash.
unfoldable pub no_slash : String → Bool
no_slash String.[] = true
no_slash (String.◌∷◌ c s) = not (code c == b'/') && no_slash s

-- The first text and then the second.
abbrev pub join_text : String → String → String
join_text String.[] t = t
join_text (String.◌∷◌ c s) t = push_front c (join_text s t)

-- The pieces, the later ones each behind a slash.
abbrev pub behind_slashes : List String → String
behind_slashes [] = ""
behind_slashes (t ∷ ts) = push_front "/" (join_text t (behind_slashes ts))

-- The pieces with a slash between each two.
abbrev pub with_slashes : List String → String
with_slashes [] = ""
with_slashes (t ∷ ts) = join_text t (behind_slashes ts)

slash_of_code : (c : Char) → (code c == b'/') ≡ true → c ≡ "/"
slash_of_code c h = Char-path c "/" (ground (arith, h))

with_slashes-onto_first :
    (c : Char) (ts : List String) → with_slashes (onto_first c ts) ≡ push_front c (with_slashes ts)
with_slashes-onto_first c [] = refl
with_slashes-onto_first c (t ∷ ts) = refl

All-onto_first :
    (c : Char) (ts : List String)
    → (code c == b'/') ≡ false
    → All (λ t. no_slash t ≡ true) ts
    → All (λ t. no_slash t ≡ true) (onto_first c ts)
unfolding no_slash
All-onto_first c [] other h = (rw other refl, tt)
All-onto_first c (t ∷ ts) other h = (rw other h.0, h.1)

split_slash-no_slash : (path : String) → All (λ t. no_slash t ≡ true) (split_slash path)
unfolding split_slash no_slash
split_slash-no_slash String.[] = (refl, tt)
split_slash-no_slash (String.◌∷◌ c s) = elim (Bool-cases (code c == b'/')) [
  | inl slash ↦ rw (slash, split_slash) (refl, split_slash-no_slash s)
  | inr other ↦
      rw (other, split_slash) (All-onto_first c (split_slash s) other (split_slash-no_slash s))
]

split_slash-some : (path : String) → (u : String) × (us : List String) × (split_slash path ≡ u ∷ us)
unfolding split_slash
split_slash-some String.[] = ("", [], refl)
split_slash-some (String.◌∷◌ c s) = elim (Bool-cases (code c == b'/')) [
  | inl slash ↦ ("", split_slash s, rw slash refl)
  | inr other ↦
      let (u, us, pieces) = split_slash-some s in (push_front c u, us, rw (other, pieces) refl)
]

with_slashes-split_slash : (path : String) → with_slashes (split_slash path) ≡ path
unfolding split_slash
with_slashes-split_slash String.[] = refl
with_slashes-split_slash (String.◌∷◌ c s) = elim (Bool-cases (code c == b'/')) [
  | inl slash ↦
      let (u, us, pieces) = split_slash-some s in
      let rest = with_slashes-split_slash s in
      rw (slash, pieces)
        (ap (push_front "/") (sym (ap with_slashes pieces) ∙ rest)
          ∙ ap (λ d. push_front d s) (sym (slash_of_code c slash)))
  | inr other ↦
      rw other
        (with_slashes-onto_first c (split_slash s) ∙ ap (push_front c) (with_slashes-split_slash s))
]

-- The pieces of a path hold no slash, and joined by slashes they are the path; its segments are
-- exactly those pieces that are not empty, in their order.
pub split_path_lem :
    (path : String)
    → (pieces : List String) × (with_slashes pieces ≡ path)
      × All (λ t. no_slash t ≡ true) pieces
      × (split_path path ≡ keep is_nonempty_text pieces)
unfolding split_path
split_path_lem path =
    (split_slash path, with_slashes-split_slash path, split_slash-no_slash path, refl)
