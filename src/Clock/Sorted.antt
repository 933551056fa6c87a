-- ===== src/Clock/Sorted.antt =====
-- Proofs about the sort of `Clock.advance`.
use vendorfake.Prelude.{
  ◌≡◌, refl, subst, true, false, List, [], ◌∷◌, arith, All, Bool-cases, List-cases, inl, inr, ◌⊎◌,
  In,
}
use vendorfake.Clock.Defs.{Timer, before, insert_timer, sort_timers}

pub sort_nil : (xs : List Timer) → sort_timers xs ≡ [] → xs ≡ []
unfolding sort_timers insert_timer
sort_nil [] e = refl
sort_nil (u ∷ us) e = elim (List-cases (sort_timers us)) [
  | inl none_left ↦ ground arith
  | inr (v, vs, sorted) ↦ ground arith
]

-- The sort keeps the timers.
In-insert_timer : (t u : Timer) (ts : List Timer) → In t (insert_timer u ts) → (u ≡ t) ⊎ In t ts
unfolding insert_timer
In-insert_timer t u [] m = m
In-insert_timer t u (v ∷ vs) m = elim (Bool-cases (before u v)) [
  | inl first ↦ rw (first, insert_timer) at m
  | inr later ↦ elim (rw (later, insert_timer) at m) [
    | inl same ↦ inr (inl same)
    | inr further ↦ elim (In-insert_timer t u vs further) [
      | inl same ↦ inl same
      | inr old ↦ inr (inr old)
    ]
  ]
]

pub In-sort_timers : (t : Timer) (ts : List Timer) → In t (sort_timers ts) → In t ts
unfolding sort_timers
In-sort_timers t [] m = m
In-sort_timers t (u ∷ us) m = elim (In-insert_timer t u (sort_timers us) m) [
  | inl same ↦ inl same
  | inr old ↦ inr (In-sort_timers t us old)
]

before_refl : (t : Timer) → before t t ≡ true
unfolding before
before_refl t = ground arith

before_trans : (t u v : Timer) → before t u ≡ true → before u v ≡ true → before t v ≡ true
unfolding before
before_trans t u v h k = ground arith

before_total : (t u : Timer) → before t u ≡ false → before u t ≡ true
unfolding before
before_total t u h = ground arith

-- `t` comes before every timer of the list, or is one with the same due time and id.
abbrev pub Least : Timer → List Timer → Type 0
Least t = All (λ u. before t u ≡ true)

Least-trans : (t u : Timer) (ts : List Timer) → before t u ≡ true → Least u ts → Least t ts
Least-trans t u [] h l = tt
Least-trans t u (v ∷ vs) h l = (before_trans t u v h l.0, Least-trans t u vs h l.1)

-- The first of the sorted timers comes before all of them.
pub first-Least :
    (ts : List Timer) (t : Timer) (rest : List Timer) → sort_timers ts ≡ t ∷ rest → Least t ts
unfolding sort_timers insert_timer
first-Least [] t rest e = tt
first-Least (u ∷ us) t rest e = elim (List-cases (sort_timers us)) [
  | inl empty ↦
      let same : u ≡ t = ground arith in
      (subst (λ w. before w u ≡ true) same (before_refl u), rw (sort_nil us empty) tt)
  | inr (v, vs, sorted) ↦ elim (Bool-cases (before u v)) [
    | inl first ↦
        let same : u ≡ t = ground arith in
        (
          subst (λ w. before w u ≡ true) same (before_refl u),
          subst (λ w. Least w us) same (Least-trans u v us first (first-Least us v vs sorted)),
        )
    | inr later ↦
        let same : v ≡ t = ground arith in
        (
          subst (λ w. before w u ≡ true) same (before_total u v later),
          subst (λ w. Least w us) same (first-Least us v vs sorted),
        )
  ]
]
