-- ===== src/Store/CursorTests.antt =====
-- Pages of a list, with a codec that writes a cursor's numbers in unary, and the theorems at work
-- on them.
use Prim.Native.Char.{Char, code}
use Prim.Native.String.{◌∷◌ as push_front}
use vendorfake.Prelude.{
  ℕ, zero, suc, String, ◌≡◌, refl, false, Option, none, some, List, [], ◌∷◌, arith, ◌==◌,
  if◌then◌else◌, Bool-cases, inl, inr,
}
use vendorfake.Text.{text_eq, text_eq_iff}
use vendorfake.Dict
use vendorfake.Json.{ℤ, pos, negsuc, Value}
use vendorfake.Errors.{ok}
use vendorfake.Store.Page.{Codec, CursorPayload, cursor_document, cursor_fields}
use vendorfake.Store.Laws.Pages.{IsCodec, walk, walk_lem}

-- `n` times the letter, then the rest.
abbrev units : ℕ → String → String
units zero rest = push_front "b" rest
units (suc n) rest = push_front "a" (units n rest)

-- How often the letter stands in front, and what follows the mark behind it.
abbrev count : String → ℕ × String
count String.[] = (0, "")
count (String.◌∷◌ c s) = let (n, rest) = count s in if code c == b'a' then (suc n, rest) else (0, s)

count-units : (n : ℕ) (rest : String) → count (units n rest) ≡ (n, rest)
count-units zero rest = refl
count-units (suc n) rest = rw (count-units n rest) refl

abbrev write_signed : ℤ → String → String
write_signed (pos n) q = push_front "p" (units n q)
write_signed (negsuc n) q = push_front "n" (units n q)

abbrev read_signed : ℕ → String → CursorPayload
read_signed o String.[] = record { o = o; q = ""; t = pos 0 }
read_signed o (String.◌∷◌ c s) =
    let (n, q) = count s in record { o = o; q = q; t = if code c == b'p' then pos n else negsuc n }

abbrev write : Option CursorPayload → String
write none = "x"
write (some p) = units p.o (write_signed p.t p.q)

abbrev read : String → Value
read text = let (o, rest) = count text in cursor_document (read_signed o rest)

abbrev unary : Codec
unary = record { encode = λ v. write (cursor_fields (some v)); decode = λ text. some (read text) }

read-write :
    (o : ℕ) (t : ℤ) (q : String)
    → read (units o (write_signed t q)) ≡ cursor_document (record { o = o; q = q; t = t })
read-write o (pos n) q = rw (count-units o (push_front "p" (units n q)), count-units n q) refl
read-write o (negsuc n) q = rw (count-units o (push_front "n" (units n q)), count-units n q) refl

front_nonempty : (c : Char) (s : String) → text_eq (push_front c s) "" ≡ false
front_nonempty c s = elim (Bool-cases (text_eq (push_front c s) "")) [
  | inl same ↦ let impossible : push_front c s ≡ "" = (text_eq_iff (push_front c s) "").0 same in cc
  | inr other ↦ other
]

units_nonempty : (n : ℕ) (rest : String) → text_eq (units n rest) "" ≡ false
units_nonempty zero rest = front_nonempty "b" rest
units_nonempty (suc n) rest = front_nonempty "a" (units n rest)

written : (p : CursorPayload) → cursor_fields (some (cursor_document p)) ≡ some p
unfolding cursor_fields Dict.get
written p = refl

unary-IsCodec : IsCodec unary
unary-IsCodec = record {
  round_trip = λ p. rw (written p, read-write p.o p.t p.q) refl;
  nonempty = λ p. rw (written p) (units_nonempty p.o (write_signed p.t p.q));
}

abbrev items : List ℕ
items = 5 ∷ 6 ∷ 7 ∷ []

walk_lem_example : walk unary "query" 1000 items (some (pos 2)) 100 50 4 none ≡ ok (some items)
walk_lem_example =
    walk_lem unary "query" 1000 items (some (pos 2)) 100 50 4 unary-IsCodec (omega arith)
      (omega arith)
