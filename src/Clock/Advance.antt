-- ===== src/Clock/Advance.antt =====
-- Proofs about `Clock.advance`.
use vendorfake.Prelude.{
  ◌↔◌, All-of_In, Bool-cases, ◌==◌, ℕ, zero, suc, ◌+◌, ◌<◌, ◌≡◌, ◌≢◌, refl, sym, ap, ◌∙◌, subst,
  true, not, some, List, [], ◌∷◌, arith, keep, All, length, List-cases, inl, inr, In, In-keep,
  keep-In, All-In,
}
use vendorfake.Clock.Defs.{
  Timer, Clock, World, without, before, sort_timers, is_due, due_timers, fire_first, advance_loop,
  advance, virtual,
}
use vendorfake.Errors.{ok}
use vendorfake.Clock.Timers.{same_timer, In-without, Unused, NodupIds, without-NodupIds}
use vendorfake.Clock.Sorted.{sort_nil, In-sort_timers, first-Least}

-- The timers that are not due.
abbrev pub later_timers : ℕ → List Timer → List Timer
later_timers instant = keep (λ t. not (is_due instant t))

abbrev pub due_count : ℕ → List Timer → ℕ
due_count instant ts = length (keep (is_due instant) ts)

Unused-of_In : (n : ℕ) (t : Timer) (ts : List Timer) → Unused n ts → In t ts → t.id ≢ n
Unused-of_In n t ts h m = All-In (λ u. u.id ≢ n) t ts h m

-- Firing a due timer takes one from the due timers, and leaves the others.
pick_due :
    (instant : ℕ) (t : Timer) (ts : List Timer)
    → NodupIds ts
    → In t ts
    → is_due instant t ≡ true
    → (due_count instant (without t.id ts) + 1 ≡ due_count instant ts)
      × (later_timers instant (without t.id ts) ≡ later_timers instant ts)
unfolding without
pick_due instant t [] h m d = absurd m
pick_due instant t (u ∷ us) h m d = elim m [
  | inl same ↦ ground arith
  | inr further ↦
      ground (arith, Unused-of_In u.id t us h.0 further, pick_due instant t us h.1 further d)
]

-- The next timer to fire is one that stands and is due, and comes before every other due timer:
-- it has the least due time and, of those, the least id.
pub due_timers-first :
    (c : Clock) (t : Timer) (rest : List Timer)
    → due_timers c ≡ t ∷ rest
    → In t c.timers
      × (is_due c.virtual_now t ≡ true)
      × ((u : Timer) → In u c.timers → is_due c.virtual_now u ≡ true → before t u ≡ true)
unfolding due_timers
due_timers-first c t rest e =
    let due = keep (is_due c.virtual_now) c.timers in
    let here : In t (sort_timers due) = rw e (inl refl) in
    let (stands, ready) = In-keep (is_due c.virtual_now) t c.timers (In-sort_timers t due here) in
    (
      stands,
      ready,
      λ u m d.
          All-In (λ v. before t v ≡ true) u due (first-Least due t rest e)
            (keep-In (is_due c.virtual_now) u c.timers m d),
    )

keep_nil :
    (instant : ℕ) (ts : List Timer)
    → keep (is_due instant) ts ≡ []
    → (later_timers instant ts ≡ ts) × All (λ t. instant < t.due_at) ts
keep_nil instant [] e = (refl, tt)
keep_nil instant (t ∷ ts) e = ground (arith, keep_nil instant ts)

-- Each timer comes before all that follow it.
abbrev pub AreInOrder : List Timer → Type 0
AreInOrder [] = Unit {0}
AreInOrder (t ∷ ts) = All (λ u. before t u ≡ true) ts × AreInOrder ts

-- The timers that are due at an instant, in their order: each of them once, and no other.
pub record AreDue (instant : ℕ) (timers due : List Timer) : Type 0 where
  pub in_order : AreInOrder due
  pub counted : length due ≡ due_count instant timers
  pub exactly : (t : Timer) → In t due ↔ (In t timers × (is_due instant t ≡ true))

first_due :
    (instant : ℕ) (t : Timer) (ts due : List Timer)
    → NodupIds ts
    → In t ts
    → is_due instant t ≡ true
    → ((u : Timer) → In u ts → is_due instant u ≡ true → before t u ≡ true)
    → due_count instant (without t.id ts) + 1 ≡ due_count instant ts
    → AreDue instant (without t.id ts) due
    → AreDue instant ts (t ∷ due)
first_due instant t ts due h stands ready least fewer rest = record {
  in_order = (
    All-of_In (λ u. before t u ≡ true) due
        (λ u m.
          let (left, d) = (rest.exactly u).0 m in least u ((In-without t.id u ts h).0 left).0 d),
    rest.in_order,
  );
  counted = omega (arith, rest.counted, fewer);
  exactly = λ u. (
    λ m. elim m [
      | inl same ↦
          (subst (λ v. In v ts) same stands, subst (λ v. is_due instant v ≡ true) same ready)
      | inr later ↦
          let (left, d) = (rest.exactly u).0 later in (((In-without t.id u ts h).0 left).0, d)
    ],
    λ (m, d). elim (Bool-cases (u.id == t.id)) [
      | inl same ↦ inl (same_timer t u ts h stands m (ground (arith, same)))
      | inr other ↦
          inr
            ((rest.exactly u).1 ((In-without t.id u ts h).1 (m, λ e. ground (arith, other, e)), d))
    ],
  );
}

-- The world when the loop of `advance` starts.
abbrev pub moved : {R : Type 0} → ℕ → World R → World R
moved ms w = record w { clock = record (w.clock) { virtual_now = w.clock.virtual_now + ms } }

module _ {R : Type 0} (settle : World R → World R) (fire : ℕ → World R → World R) where
  -- The world after the timers of the list have fired in turn: each is removed, and then its
  -- callback runs.
  abbrev pub run_timers : List Timer → World R → World R
  run_timers [] w = settle w
  run_timers (t ∷ ts) w =
      let v = settle w in
      run_timers ts
        (fire t.fn (record v { clock = record (v.clock) { timers = without t.id v.clock.timers } }))

  module _ (quiet_settle : (w : World R) → (settle w).clock ≡ w.clock)
      (quiet_fire : (fn : ℕ) (w : World R) → (fire fn w).clock ≡ w.clock) where
    quiet_first :
        (t : Timer) (w : World R) (c : Clock)
        → w.clock ≡ c
        → (fire_first settle fire t (settle w)).clock ≡ record c { timers = without t.id c.timers }
    unfolding fire_first
    quiet_first t w c e =
        quiet_fire t.fn _
        ∙ ap (λ (d : Clock). record d { timers = without t.id d.timers }) (quiet_settle w ∙ e)

    loop_quiet :
        (fuel : ℕ) (w : World R) (c : Clock) (n : ℕ)
        → w.clock ≡ c
        → NodupIds c.timers
        → due_count c.virtual_now c.timers < fuel
        → (fired : List Timer) × AreDue c.virtual_now c.timers fired
          × (advance_loop settle fire fuel w n
              ≡ some (n + due_count c.virtual_now c.timers, run_timers fired w))
          × ((run_timers fired w).clock ≡ record c { timers = later_timers c.virtual_now c.timers })
    unfolding advance_loop due_timers fire_first
    loop_quiet zero w c n e u h = absurd (omega arith)
    loop_quiet (suc fuel) w c n e u h = elim (List-cases (due_timers c)) [
      | inl empty ↦
          let settled : due_timers (settle w).clock ≡ [] =
            ap due_timers (quiet_settle w ∙ e) ∙ empty in
          let nothing : keep (is_due c.virtual_now) c.timers ≡ [] = sort_nil _ empty in
          let none_due : due_count c.virtual_now c.timers ≡ 0 = ap length nothing in
          let all_later = (keep_nil c.virtual_now c.timers nothing).0 in
          (
            [],
            record {
              in_order = tt;
              counted = sym none_due;
              exactly = λ t. (
                λ m. absurd m,
                λ (m, d).
                    let kept = keep-In (is_due c.virtual_now) t c.timers m d in
                    subst (In t) nothing kept,
              );
            },
            ground (arith, settled, none_due),
            quiet_settle w ∙ e ∙ ap (λ (ts : List Timer). record c { timers = ts }) (sym all_later),
          )
      | inr (t, ts, first) ↦
          let settled : due_timers (settle w).clock ≡ t ∷ ts =
            ap due_timers (quiet_settle w ∙ e) ∙ first in
          let (stands, ready, least) = due_timers-first c t ts first in
          let (fewer, same) = pick_due c.virtual_now t c.timers u stands ready in
          let (fired, due, returns, left) =
            loop_quiet fuel (fire_first settle fire t (settle w))
              (record c { timers = without t.id c.timers }) (n + 1) (quiet_first t w c e)
              (without-NodupIds t.id c.timers u) (omega (arith, fewer)) in
          (
            t ∷ fired,
            first_due c.virtual_now t c.timers fired u stands ready least fewer due,
            ground (arith, settled, returns, fewer),
            left ∙ ap (λ (rest : List Timer). record c { timers = rest }) same,
          )
    ]

    -- If the callbacks leave the clock alone, `advance` runs the callbacks of exactly the timers that
    -- are due at the new time, each once, in the order of their due times and, of equal ones, of
    -- their ids, each after its timer is removed, and then returns their number; the other timers
    -- stay. Fuel above their number is enough.
    pub advance_quiet :
        (fuel ms : ℕ) (w : World R)
        → w.clock.mode ≡ virtual
        → NodupIds w.clock.timers
        → due_count (w.clock.virtual_now + ms) w.clock.timers < fuel
        → (fired : List Timer) × AreDue (w.clock.virtual_now + ms) w.clock.timers fired
          × (advance settle fire fuel ms w
              ≡ ok (some (length fired, run_timers fired (moved ms w))))
          × ((run_timers fired (moved ms w)).clock ≡ record (w.clock) {
            virtual_now = w.clock.virtual_now + ms;
            timers = later_timers (w.clock.virtual_now + ms) w.clock.timers;
          })
    unfolding advance
    advance_quiet fuel ms w v u h =
        let (fired, due, returns, left) =
          loop_quiet fuel (moved ms w) (moved ms w).clock 0 refl u h in
        (fired, due, ground (arith, returns, due.counted), left)
