-- ===== src/Numbers.antt =====
-- core/util/numbers.py, on whole numbers, and the decimal digits of a number in a format string.
use Prim.Native.Char.{code}
use Prim.Native.String.{◌++◌ as text_append}
use vendorfake.Prelude.{
  ℕ, zero, suc, ◌+◌, ◌-◌, ◌/◌, ◌%◌, String, Bool, true, false, ◌&&◌, ◌||◌, Option, none, some, leb,
  ◌==◌, if◌then◌else◌,
}
use vendorfake.Json.{ℤ, pos, negsuc, Value, null, bool, int, str}

-- A character that `str.strip` removes, of ASCII.
abbrev is_space : ℕ → Bool
is_space c = c == 32 || (leb 9 c && leb c 13) || (leb 28 c && leb c 31)

-- `value.strip() == ""`
unfoldable pub is_blank : String → Bool
is_blank String.[] = true
is_blank (String.◌∷◌ c s) = is_space (code c) && is_blank s

abbrev pub or_default : Option ℤ → ℤ → ℤ
or_default none default = default
or_default (some n) default = n

-- `as_float`, of a value that is not a fraction; `parse` is `float` on a text, cut to its whole
-- part, and `none` where that raises or is not finite.
unfoldable pub as_float : (String → Option ℤ) → Option Value → ℤ → ℤ
unfolding is_blank
as_float parse none default = default
as_float parse (some null) default = default
as_float parse (some (bool true)) default = pos 1
as_float parse (some (bool false)) default = pos 0
as_float parse (some (int n)) default = n
as_float parse (some (str t)) default = if is_blank t then pos 0 else or_default (parse t) default
as_float parse (some v) default = default

-- `as_int`
unfoldable pub as_int : (String → Option ℤ) → Option Value → ℤ → ℤ
unfolding as_float
as_int parse value default = as_float parse value default

-- `max(0, n)`
abbrev pub at_least_zero : ℤ → ℕ
at_least_zero (pos n) = n
at_least_zero (negsuc n) = 0

-- `range(1 + n)` has as many items.
abbrev pub one_more : ℤ → ℕ
one_more (pos n) = n + 1
one_more (negsuc n) = 0

abbrev pub digit : ℕ → String
digit n =
    if n == 0
    then "0"
    else (if n == 1
        then "1"
        else (if n == 2
            then "2"
            else (if n == 3
                then "3"
                else (if n == 4
                    then "4"
                    else (if n == 5
                        then "5"
                        else (if n == 6
                            then "6"
                            else (if n == 7 then "7" else (if n == 8 then "8" else "9"))))))))

-- The decimal digits of a number in front of a text, with at least `width` of them.
unfoldable pub digits : ℕ → ℕ → ℕ → String → String
digits zero width n after = after
digits (suc fuel) width n after =
    let longer = text_append (digit (n % 10)) after in
    elim (n / 10) [
      | zero ↦ elim (width - 1) [ zero ↦ longer | suc w ↦ digits fuel (width - 1) 0 longer ]
      | suc q ↦ digits fuel (width - 1) (suc q) longer
    ]

-- `f"{n:0{width}d}"`; a number has no more digits than it counts, so the fuel is enough.
unfoldable pub padded : ℕ → ℕ → String
unfolding digits
padded width n = digits (width + n + 1) width n ""
