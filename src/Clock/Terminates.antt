-- ===== src/Clock/Terminates.antt =====
-- `Clock.advance` returns.
use vendorfake.Prelude.{
  ℕ, zero, suc, ◌+◌, ◌≤◌, ◌<◌, ◌≡◌, some, List, ◌∷◌, arith, length, List-cases, inl, inr,
}
use vendorfake.Clock.Defs.{
  Timer, World, without, due_timers, fire_first, advance_loop, advance, virtual,
}
use vendorfake.Errors.{ok}
use vendorfake.Clock.Timers.{length-without}
use vendorfake.Clock.Advance.{moved, due_timers-first}

module _ {R : Type 0} (settle : World R → World R) (fire : ℕ → World R → World R) where
  -- One round costs one unit of fuel. With a measure that `settle` does not raise and that each
  -- fired callback lowers, fuel above the measure is enough, and the loop returns a result.
  loop_total :
      (measure : World R → ℕ)
      → ((w : World R) → measure (settle w) ≤ measure w)
      → ((w : World R) (t : Timer) (rest : List Timer)
          → due_timers w.clock ≡ t ∷ rest
          → measure (fire_first settle fire t w) < measure w)
      → (fuel : ℕ) (w : World R) (n : ℕ) → measure w < fuel
      → (r : ℕ × World R) × (advance_loop settle fire fuel w n ≡ some r)
  unfolding advance_loop
  loop_total measure calm lower zero w n h = absurd (omega arith)
  loop_total measure calm lower (suc fuel) w n h = elim (List-cases (due_timers (settle w).clock)) [
    | inl empty ↦ ((n, settle w), ground arith)
    | inr (t, ts, first) ↦
        let (r, e) =
          loop_total measure calm lower fuel (fire_first settle fire t (settle w)) (n + 1)
            (omega (arith, calm w, lower (settle w) t ts first)) in
        (r, ground arith)
  ]

  -- Firing removes a timer, so that what the callback adds is paid by the budget.
  fired_pays :
      (budget : R → ℕ)
      → ((fn : ℕ) (w : World R)
          → length (fire fn w).clock.timers + budget (fire fn w).rest
            ≤ length w.clock.timers + budget w.rest)
      → (w : World R) (t : Timer) (rest : List Timer) → due_timers w.clock ≡ t ∷ rest
      → length (fire_first settle fire t w).clock.timers + budget (fire_first settle fire t w).rest
        < length w.clock.timers + budget w.rest
  unfolding fire_first
  fired_pays budget pays w t rest first =
      let here = (due_timers-first w.clock t rest first).0 in
      omega (
        arith,
        length-without t w.clock.timers here,
        pays t.fn (record w { clock = record (w.clock) { timers = without t.id w.clock.timers } }),
      )

  -- On a virtual clock `advance` returns if the callbacks that it runs, and the settling before each
  -- look at the timers, schedule at most one timer for each unit of a budget that they use up: fuel
  -- above the number of timers and the budget is enough. What makes it end is that each round
  -- removes the timer that it fires.
  pub advance_total :
      (budget : R → ℕ)
      → ((w : World R)
          → length (settle w).clock.timers + budget (settle w).rest
            ≤ length w.clock.timers + budget w.rest)
      → ((fn : ℕ) (w : World R)
          → length (fire fn w).clock.timers + budget (fire fn w).rest
            ≤ length w.clock.timers + budget w.rest)
      → (fuel ms : ℕ) (w : World R) → w.clock.mode ≡ virtual
      → length w.clock.timers + budget w.rest < fuel
      → (r : ℕ × World R) × (advance settle fire fuel ms w ≡ ok (some r))
  unfolding advance
  advance_total budget calm pays fuel ms w v h =
      let (r, e) =
        loop_total (λ w. length w.clock.timers + budget w.rest) calm (fired_pays budget pays) fuel
          (moved ms w) 0 h in
      (r, ground (arith, e))
