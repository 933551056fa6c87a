-- ===== src/Clock/Timers.antt =====
-- Proofs about the ids of timers, `after` and `cancel`.
use vendorfake.Prelude.{
  sym, ap, ◌∙◌, ◌↔◌, length, In, All-In, Bool-cases, inl, inr, subst, ℕ, ◌+◌, ◌<◌, String, ◌≡◌, ◌≢◌,
  refl, none, some, List, [], ◌∷◌, ◌++◌, arith, ◌==◌, All, All-append, if◌then◌else◌,
}
use vendorfake.Clock.Defs.{Timer, Clock, now, after, cancel, without, lookup_timer, fire_real}

-- No timer of the list has the id.
abbrev pub Unused : ℕ → List Timer → Type 0
Unused timer_id ts = All (λ t. t.id ≢ timer_id) ts

abbrev pub NodupIds : List Timer → Type 0
NodupIds [] = Unit
NodupIds (t ∷ ts) = Unused t.id ts × NodupIds ts

-- The ids are distinct, and all were given out by `after`.
pub record IsClock (c : Clock) : Type 0 where
  pub nodup : NodupIds c.timers
  pub given : All (λ t. t.id < c.next_id) c.timers

given_mono : (n : ℕ) (ts : List Timer) → All (λ t. t.id < n) ts → All (λ t. t.id < n + 1) ts
given_mono n [] h = tt
given_mono n (t ∷ ts) h = (omega arith, given_mono n ts h.1)

Unused-append :
    (n : ℕ) (ts : List Timer) (t : Timer) → Unused n ts → t.id ≢ n → Unused n (ts ++ t ∷ [])
Unused-append n ts t h e = All-append (λ u. u.id ≢ n) ts (t ∷ []) h (e, tt)

NodupIds-append :
    (ts : List Timer) (t : Timer)
    → NodupIds ts
    → All (λ u. u.id < t.id) ts
    → NodupIds (ts ++ t ∷ [])
NodupIds-append [] t h b = (tt, tt)
NodupIds-append (u ∷ us) t h b =
    (Unused-append u.id us t h.0 (omega arith), NodupIds-append us t h.1 b.1)

All-without : (P : Timer → Type 0) (n : ℕ) (ts : List Timer) → All P ts → All P (without n ts)
unfolding without
All-without P n [] h = tt
All-without P n (t ∷ ts) h = elim (Bool-cases (t.id == n)) [
  | inl same ↦ rw (same, without) h.1
  | inr other ↦ rw (other, without) (h.0, All-without P n ts h.1)
]

pub without-NodupIds : (n : ℕ) (ts : List Timer) → NodupIds ts → NodupIds (without n ts)
unfolding without
without-NodupIds n [] h = tt
without-NodupIds n (t ∷ ts) h = elim (Bool-cases (t.id == n)) [
  | inl same ↦ rw (same, without) h.1
  | inr other ↦
      rw (other, without) (All-without (λ u. u.id ≢ t.id) n ts h.0, without-NodupIds n ts h.1)
]

lookup-Unused : (n : ℕ) (ts : List Timer) → Unused n ts → lookup_timer n ts ≡ none
unfolding lookup_timer
lookup-Unused n [] h = refl
lookup-Unused n (t ∷ ts) h = ground (arith, h.0, lookup-Unused n ts h.1)

Unused-of_eq : (n m : ℕ) (ts : List Timer) → n ≡ m → Unused n ts → Unused m ts
Unused-of_eq n m ts e h = subst (λ k. Unused k ts) e h

lookup-without :
    (n m : ℕ) (ts : List Timer)
    → NodupIds ts
    → lookup_timer m (without n ts) ≡ (if n == m then none else lookup_timer m ts)
unfolding lookup_timer without
lookup-without n m [] h = ground arith
lookup-without n m (t ∷ ts) h = ground (
  arith,
  lookup-without n m ts h.1,
  λ (e : t.id ≡ m). lookup-Unused m ts (Unused-of_eq t.id m ts e h.0),
)

pub after-IsClock :
    (delay : ℕ) (label : String) (fn : ℕ) (c : Clock)
    → IsClock c
    → IsClock (after delay label fn c).1
unfolding after
after-IsClock delay label fn c h = record {
  nodup = NodupIds-append c.timers _ h.nodup h.given;
  given =
      All-append (λ t. t.id < c.next_id + 1) c.timers _ (given_mono c.next_id c.timers h.given)
        (omega arith, tt);
}

pub cancel-IsClock : (n : ℕ) (c : Clock) → IsClock c → IsClock (cancel n c)
unfolding cancel
cancel-IsClock n c h = record {
  nodup = without-NodupIds n c.timers h.nodup;
  given = All-without (λ t. t.id < c.next_id) n c.timers h.given;
}

lookup-append :
    (ts : List Timer) (new : Timer) (n : ℕ)
    → All (λ t. t.id < new.id) ts
    → lookup_timer n (ts ++ new ∷ []) ≡ (if new.id == n then some new else lookup_timer n ts)
unfolding lookup_timer
lookup-append [] new n b = refl
lookup-append (t ∷ ts) new n b = ground (arith, lookup-append ts new n b.1)

-- A timer that is scheduled has a new id and stands with its due time, and every timer that stood
-- before stands as it did.
pub lookup-after :
    (delay : ℕ) (label : String) (fn : ℕ) (c : Clock) (n : ℕ)
    → IsClock c
    → lookup_timer n (after delay label fn c).1.timers ≡ (
        if (after delay label fn c).0 == n
        then some (record { id = c.next_id; due_at = now c + delay; fn = fn; label = label })
        else lookup_timer n c.timers)
unfolding after
lookup-after delay label fn c n h = lookup-append c.timers _ n h.given

-- A cancelled timer does not fire, and every other timer still stands.
pub cancel_lem :
    (n m : ℕ) (c : Clock)
    → IsClock c
    → ((fire_real n (cancel n c)).0 ≡ none)
      × (n ≢ m → lookup_timer m (cancel n c).timers ≡ lookup_timer m c.timers)
unfolding fire_real cancel
cancel_lem n m c h = (
  ground (arith, lookup-without n n c.timers h.nodup),
  λ e. ground (arith, lookup-without n m c.timers h.nodup),
)

-- Two timers of the list with the same id are the same.
pub same_timer :
    (t u : Timer) (ts : List Timer) → NodupIds ts → In t ts → In u ts → u.id ≡ t.id → t ≡ u
same_timer t u [] h m n e = absurd m
same_timer t u (v ∷ vs) h (inl a) (inl b) e = sym a ∙ b
same_timer t u (v ∷ vs) h (inl a) (inr n) e =
    absurd (All-In (λ w. w.id ≢ v.id) u vs h.0 n (e ∙ ap (λ (w : Timer). w.id) (sym a)))
same_timer t u (v ∷ vs) h (inr m) (inl b) e =
    absurd (All-In (λ w. w.id ≢ v.id) t vs h.0 m (sym e ∙ ap (λ (w : Timer). w.id) (sym b)))
same_timer t u (v ∷ vs) h (inr m) (inr n) e = same_timer t u vs h.1 m n e

-- What is left after a timer is removed.
pub In-without :
    (n : ℕ) (u : Timer) (ts : List Timer)
    → NodupIds ts
    → In u (without n ts) ↔ (In u ts × (u.id ≢ n))
unfolding without
In-without n u [] h = (λ m. absurd m, λ (m, e). absurd m)
In-without n u (v ∷ vs) h = elim (Bool-cases (v.id == n)) [
  | inl same ↦
      let gone : v.id ≡ n = ground (arith, same) in
      rw (same, without)
        (
          λ m. (inr m, λ e. All-In (λ w. w.id ≢ v.id) u vs h.0 m (e ∙ sym gone)),
          λ (m, e). elim m [
            | inl equal ↦ absurd (e (ap (λ (w : Timer). w.id) (sym equal) ∙ gone))
            | inr later ↦ later
          ],
        )
  | inr other ↦
      let stays : v.id ≢ n = λ e. ground (arith, other, e) in
      rw (other, without)
        (
          λ m. elim m [
            | inl equal ↦ (inl equal, λ e. stays (ap (λ (w : Timer). w.id) equal ∙ e))
            | inr later ↦ let (there, e) = (In-without n u vs h.1).0 later in (inr there, e)
          ],
          λ (m, e). elim m [
            | inl equal ↦ inl equal
            | inr later ↦ inr ((In-without n u vs h.1).1 (later, e))
          ],
        )
]

pub length-without :
    (t : Timer) (ts : List Timer) → In t ts → length (without t.id ts) + 1 ≡ length ts
unfolding without
length-without t [] m = absurd m
length-without t (u ∷ us) m = elim (Bool-cases (u.id == t.id)) [
  | inl same ↦ rw (same, without) (omega arith)
  | inr other ↦ elim m [
    | inl equal ↦ ground (arith, equal)
    | inr further ↦ rw (other, without) (omega (arith, length-without t us further))
  ]
]
