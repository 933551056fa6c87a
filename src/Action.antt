-- ===== src/Action.antt =====
-- Code that changes a state and may raise: what was changed before the raise stays changed.
use vendorfake.Prelude.{◌≡◌, refl, ap, inl, inr}
use vendorfake.Errors.{Result, Error, ok, err, Result-cases}

abbrev pub Action : Type 0 → Type 0 → Type 0
Action S A = S → Result A × S

module _ {S : Type 0} where
  -- One statement, then the next unless the first raises.
  unfoldable pub and_then : {A B : Type 0} → Action S A → (A → Action S B) → Action S B
  and_then first next s = let (r, s') = first s in elim r [ err e ↦ (err e, s') | ok a ↦ next a s' ]

  -- A statement that only changes the state.
  abbrev pub change : (S → S) → Action S (Unit {0})
  change f s = (ok tt, f s)

  abbrev pub return : {A : Type 0} → A → Action S A
  return a s = (ok a, s)

-- A relation of states that runs of several statements keep.
pub record Order (S : Type 0) : Type 1 where
  pub holds : S → S → Type 0
  pub stays : (s : S) → holds s s
  pub joins : (s t u : S) → holds s t → holds t u → holds s u

module _ {S : Type 0} (R : Order S) where
  -- The action relates the state before to the state after, also when it raises.
  abbrev pub Keeps : {A : Type 0} → Action S A → Type 0
  Keeps m = (s : S) → R.holds s (m s).1

  pub Keeps-and_then :
      {A B : Type 0} (m : Action S A) (k : A → Action S B)
      → Keeps m
      → ((a : A) → Keeps (k a))
      → Keeps (and_then m k)
  unfolding and_then
  Keeps-and_then m k first later s = elim (Result-cases (m s).0) [
    | inl (e, raised) ↦ rw (raised, and_then) (first s)
    | inr (a, returned) ↦
        rw (returned, and_then) (R.joins s (m s).1 (k a (m s).1).1 (first s) (later a (m s).1))
  ]

-- An invariant is such a relation.
abbrev pub implied : {S : Type 0} → (S → Type 0) → Order S
implied I = record { holds = λ s t. I s → I t; stays = λ s i. i; joins = λ s t u f g i. g (f i) }

-- What follows a statement that returns.
pub and_then-ok :
    {S A B : Type 0} (m : Action S A) (k : A → Action S B) (s s' : S) (a : A)
    → m s ≡ (ok a, s')
    → and_then m k s ≡ k a s'
unfolding and_then
and_then-ok {S} {A} {B} m k s s' a e =
    ap (λ (p : Result A × S). elim p.0 [ err r ↦ (err r, p.1) | ok v ↦ k v p.1 ]) e

pub and_then-err :
    {S A B : Type 0} (m : Action S A) (k : A → Action S B) (s s' : S) (e : Error)
    → m s ≡ (err e, s')
    → and_then m k s ≡ (err e, s')
unfolding and_then
and_then-err {S} {A} {B} m k s s' e raised =
    ap (λ (p : Result A × S). elim p.0 [ err r ↦ (err r, p.1) | ok v ↦ k v p.1 ]) raised

-- A chain that returns did so at its first statement, and goes on from there.
pub and_then-eq-ok :
    {S A B : Type 0} (m : Action S A) (k : A → Action S B) (s : S) (b : B)
    → (and_then m k s).0 ≡ ok b
    → (a : A) × ((m s).0 ≡ ok a) × (and_then m k s ≡ k a (m s).1)
unfolding and_then
and_then-eq-ok m k s b h = elim (Result-cases (m s).0) [
  | inl (e, raised) ↦ let stopped = (rw (raised, and_then) at h) in cc
  | inr (a, returned) ↦ (a, returned, rw (returned, and_then) refl)
]
