-- ===== src/Unit/Laws/Escapes.antt =====
-- The text of a JSON pointer (RFC 6901), and that core/chaos/faults.py reads its segments back.
use Prim.Native.Char.{Char, char, code}
use Prim.Native.String.{◌∷◌ as push_front}
use text.Mathlib.TextEquality.{Char-path}
use vendorfake.Prelude.{
  ℕ, String, ◌≡◌, refl, sym, ap, ◌∙◌, true, false, List, [], ◌∷◌, map, ◌==◌, arith, if◌then◌else◌,
  Bool-cases, inl, inr,
}
use vendorfake.Errors.{ok}
use vendorfake.Paths.{split_on}
use vendorfake.Unit.Pointer.{tilde, slash, unescape, read_escapes, pointer_segments}

abbrev zero_digit : Char
zero_digit = char b'0' tt

abbrev one_digit : Char
one_digit = char b'1' tt

-- A segment as a pointer writes it: `~0` for `~` and `~1` for `/`, in front of a text.
unfoldable pub escape_onto : String → String → String
escape_onto String.[] after = after
escape_onto (String.◌∷◌ c s) after =
    let rest = escape_onto s after in
    if code c == b'~'
    then push_front tilde (push_front zero_digit rest)
    else if code c == b'/'
    then push_front tilde (push_front one_digit rest)
    else push_front c rest

-- The pointer with these segments, after its first slash.
unfoldable pub joined : String → List String → String
unfolding escape_onto
joined s [] = escape_onto s ""
joined s (t ∷ ts) = escape_onto s (push_front slash (joined t ts))

-- A segment whose slashes are read.
half_escaped : String → String
half_escaped String.[] = ""
half_escaped (String.◌∷◌ c s) =
    let rest = half_escaped s in
    if code c == b'~' then push_front tilde (push_front zero_digit rest) else push_front c rest

unescape-other :
    (digit : ℕ) (to : Char) (c : Char) (s : String)
    → (code c == b'~') ≡ false
    → unescape digit to (push_front c s) ≡ push_front c (unescape digit to s)
unfolding unescape
unescape-other digit to c String.[] h = refl
unescape-other digit to c (String.◌∷◌ d s) h = rw (h, unescape) refl

Char-path_of : (c d : Char) → (code c == code d) ≡ true → c ≡ d
Char-path_of c d h = Char-path c d (ground (arith, h))

first_pass : (s : String) → unescape b'1' slash (escape_onto s "") ≡ half_escaped s
unfolding escape_onto half_escaped unescape
first_pass String.[] = refl
first_pass (String.◌∷◌ c s) =
    let rest = escape_onto s "" in
    elim (Bool-cases (code c == b'~')) [
      | inl same ↦ rw same (
          ap (push_front tilde) (
            unescape-other b'1' slash zero_digit rest refl
            ∙ ap (push_front zero_digit) (first_pass s)))
      | inr other ↦ elim (Bool-cases (code c == b'/')) [
        | inl same ↦
            rw (other, same)
              (ap (push_front slash) (first_pass s)
                ∙ ap (λ d. push_front d (half_escaped s)) (sym (Char-path_of c slash same)))
        | inr plain ↦
            rw (other, plain)
              (unescape-other b'1' slash c rest other ∙ ap (push_front c) (first_pass s))
      ]
    ]

second_pass : (s : String) → unescape b'0' tilde (half_escaped s) ≡ s
unfolding half_escaped unescape
second_pass String.[] = refl
second_pass (String.◌∷◌ c s) = elim (Bool-cases (code c == b'~')) [
  | inl same ↦ rw same (
      ap (push_front tilde) (second_pass s)
      ∙ ap (λ d. push_front d s) (sym (Char-path_of c tilde same)))
  | inr other ↦
      rw other
        (unescape-other b'0' tilde c (half_escaped s) other ∙ ap (push_front c) (second_pass s))
]

read_escapes-escape : (s : String) → read_escapes (escape_onto s "") ≡ s
unfolding read_escapes
read_escapes-escape s = ap (unescape b'0' tilde) (first_pass s) ∙ second_pass s

-- An escaped segment holds no slash.
split_on-escape :
    (s after w : String) (ws : List String)
    → split_on b'/' after ≡ w ∷ ws
    → split_on b'/' (escape_onto s after) ≡ escape_onto s w ∷ ws
unfolding split_on escape_onto
split_on-escape String.[] after w ws h = h
split_on-escape (String.◌∷◌ c s) after w ws h =
    let rest = split_on-escape s after w ws h in
    elim (Bool-cases (code c == b'~')) [
      | inl same ↦ rw (same, rest) refl
      | inr other ↦ elim (Bool-cases (code c == b'/')) [
        | inl same ↦ rw (other, same, rest) refl
        | inr plain ↦ rw (other, plain, rest, plain) refl
      ]
    ]

split_on-joined :
    (s : String) (ts : List String)
    → split_on b'/' (joined s ts) ≡ map (λ t. escape_onto t "") (s ∷ ts)
unfolding joined split_on
split_on-joined s [] = split_on-escape s "" "" [] refl
split_on-joined s (t ∷ ts) =
    split_on-escape s (push_front slash (joined t ts)) "" (map (λ u. escape_onto u "") (t ∷ ts))
      (rw (split_on-joined t ts, split_on) refl)

read_all : (ts : List String) → map read_escapes (map (λ t. escape_onto t "") ts) ≡ ts
read_all [] = refl
read_all (t ∷ ts) = rw (read_escapes-escape t, read_all ts) refl

-- The pointer that RFC 6901 writes for any segments, `~` and `/` in them included, is read back as
-- those segments.
pub pointer_segments-joined :
    (s : String) (ts : List String)
    → pointer_segments (push_front slash (joined s ts)) ≡ ok (s ∷ ts)
unfolding pointer_segments
pointer_segments-joined s ts =
    ap (λ pieces. ok (map read_escapes pieces)) (split_on-joined s ts) ∙ ap ok (read_all (s ∷ ts))
