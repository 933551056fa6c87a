-- ===== src/Chaos/Glob.antt =====
-- `glob_match` of core/chaos/rules.py: `*` stands for any run of characters but line feeds.
use Prim.Native.Char.{Char, code}
use Prim.Native.String.{◌∷◌ as push_front}
use text.Mathlib.TextEquality.{Char-path}
use vendorfake.Prelude.{
  String, ◌≡◌, refl, ◌↔◌, ◌⊎◌, inl, inr, ◌≢◌, Bool, true, false, not, ◌&&◌, ◌||◌, arith, ◌==◌,
  if◌then◌else◌, Bool-cases,
}
use vendorfake.Text.{text_eq, text_eq_iff}

abbrev pub is_star : Char → Bool
is_star p = code p == b'*'

-- `"*" in pattern`
unfoldable pub has_star : String → Bool
has_star String.[] = false
has_star (String.◌∷◌ p ps) = is_star p || has_star ps

-- `.*` in front of what `rest` matches.
unfoldable pub any_run : (String → Bool) → String → Bool
any_run rest String.[] = rest ""
any_run rest (String.◌∷◌ c s) = rest (push_front c s) || (not (code c == 10) && any_run rest s)

-- `re.fullmatch(re.escape(pattern).replace("\\*", ".*"), value)`
unfoldable pub full_match : String → String → Bool
unfolding any_run
full_match String.[] String.[] = true
full_match String.[] (String.◌∷◌ c s) = false
full_match (String.◌∷◌ p ps) String.[] = is_star p && full_match ps ""
full_match (String.◌∷◌ p ps) (String.◌∷◌ c s) =
    if is_star p
    then any_run (full_match ps) (push_front c s)
    else code p == code c && full_match ps s

unfoldable pub glob_match : String → String → Bool
glob_match pattern value =
    if text_eq pattern value then true else has_star pattern && full_match pattern value

-- What a pattern means.
pub data Matches : String → String → Type 0 where
  done : Matches "" ""
  same :
      {p c : Char} {ps s : String}
      → is_star p ≡ false
      → code p ≡ code c
      → Matches ps s
      → Matches (push_front p ps) (push_front c s)
  stop : {p : Char} {ps s : String} → is_star p ≡ true → Matches ps s → Matches (push_front p ps) s
  more :
      {p c : Char} {ps s : String}
      → is_star p ≡ true
      → code c ≢ 10
      → Matches (push_front p ps) s
      → Matches (push_front p ps) (push_front c s)

any_run-Matches :
    (rest : String → Bool) (p : Char) (ps s : String)
    → is_star p ≡ true
    → ((t : String) → rest t ≡ true → Matches ps t)
    → any_run rest s ≡ true
    → Matches (push_front p ps) s
unfolding any_run
any_run-Matches rest p ps String.[] star sound h = stop star (sound "" h)
any_run-Matches rest p ps (String.◌∷◌ c s) star sound h =
    elim (Bool-cases (rest (push_front c s))) [
      | inl now ↦ stop star (sound (push_front c s) now)
      | inr later ↦
          more star (ground (arith, later))
            (any_run-Matches rest p ps s star sound (ground (arith, later)))
    ]

full_match-Matches : (p s : String) → full_match p s ≡ true → Matches p s
unfolding full_match
full_match-Matches String.[] String.[] h = done
full_match-Matches String.[] (String.◌∷◌ c s) h = cc
full_match-Matches (String.◌∷◌ p ps) String.[] h =
    stop (ground arith) (full_match-Matches ps "" (ground arith))
full_match-Matches (String.◌∷◌ p ps) (String.◌∷◌ c s) h = elim (Bool-cases (is_star p)) [
  | inl star ↦
      any_run-Matches (full_match ps) p ps (push_front c s) star (λ t q. full_match-Matches ps t q)
        (ground (arith, star))
  | inr plain ↦ same plain (ground (arith, plain)) (full_match-Matches ps s (ground (arith, plain)))
]

any_run_now : (rest : String → Bool) (s : String) → rest s ≡ true → any_run rest s ≡ true
unfolding any_run
any_run_now rest String.[] h = h
any_run_now rest (String.◌∷◌ c s) h = rw h

Matches-full_match : {p s : String} → Matches p s → full_match p s ≡ true
unfolding full_match
Matches-full_match done = refl
Matches-full_match (same {p = p} plain e m) =
    rw (plain, full_match) (ground (arith, Matches-full_match m))
Matches-full_match (stop {p = p} {ps = ps} {s = String.[]} star m) =
    ground (arith, Matches-full_match m)
Matches-full_match (stop {p = p} {ps = ps} {s = String.◌∷◌ c s} star m) =
    ground (arith, any_run_now (full_match ps) (push_front c s) (Matches-full_match m))
Matches-full_match (more {s = String.[]} star ne m) = ground (arith, Matches-full_match m)
Matches-full_match (more {s = String.◌∷◌ d s} star ne m) = ground (arith, Matches-full_match m)

-- Without a `*` a pattern matches only itself.
Matches-no_star : {p s : String} → Matches p s → has_star p ≡ false → p ≡ s
unfolding has_star
Matches-no_star done h = refl
Matches-no_star (same {p = p} {c = c} plain e m) h =
    cc (Char-path p c e, Matches-no_star m (ground arith))
Matches-no_star (stop star m) h = ground arith
Matches-no_star (more star ne m) h = ground arith

-- `glob_match` accepts a value exactly if it is the pattern itself, or arises from it by putting
-- any run of characters without a line feed for each `*`.
pub glob_match_iff :
    (pattern value : String)
    → (glob_match pattern value ≡ true) ↔ ((pattern ≡ value) ⊎ Matches pattern value)
unfolding glob_match
glob_match_iff pattern value = (
  λ h. elim (Bool-cases (text_eq pattern value)) [
    | inl equal ↦ inl ((text_eq_iff pattern value).0 equal)
    | inr other ↦ inr (full_match-Matches pattern value (ground (arith, other)))
  ],
  λ h. elim h [
    | inl equal ↦ ground (arith, (text_eq_iff pattern value).1 equal)
    | inr m ↦ elim (Bool-cases (has_star pattern)) [
      | inl starred ↦ ground (arith, starred, Matches-full_match m)
      | inr plain ↦ ground (arith, (text_eq_iff pattern value).1 (Matches-no_star m plain))
    ]
  ],
)
