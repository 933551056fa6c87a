-- ===== src/Clock/Tests.antt =====
-- A virtual clock of core/time/clock.py with three timers, and the theorems at work on it.
use vendorfake.Prelude.{some, ℕ, ◌≡◌, refl, some, List, [], ◌∷◌, length, arith}
use vendorfake.Errors.{ok}
use vendorfake.Clock.Defs.{Timer, Clock, World, virtual, advance}
use vendorfake.Clock.Timers.{IsClock}
use vendorfake.Clock.Terminates.{advance_total}
use vendorfake.Clock.Advance.{AreDue, run_timers, moved, advance_quiet}

abbrev retry_timer : Timer
retry_timer = record { id = 1; due_at = 2000; fn = 7; label = "retry" }

abbrev poll_timer : Timer
poll_timer = record { id = 2; due_at = 1500; fn = 8; label = "poll" }

abbrev late_timer : Timer
late_timer = record { id = 3; due_at = 9000; fn = 9; label = "late" }

abbrev clock : Clock
clock = record {
  mode = virtual;
  wall = 0;
  virtual_now = 1000;
  next_id = 4;
  timers = retry_timer ∷ poll_timer ∷ late_timer ∷ [];
  handles = [];
  iso = λ n. "2025-01-01T00:00:00.000Z";
}

abbrev polled : ℕ
polled = 2

abbrev retried : ℕ
retried = 1

abbrev later_clock : Clock
later_clock = record clock { virtual_now = 2000 }

-- The callbacks write down which of them ran.
abbrev world : World (List ℕ)
world = record { clock = clock; rest = [] }

abbrev calm : World (List ℕ) → World (List ℕ)
calm w = w

abbrev write_down : ℕ → World (List ℕ) → World (List ℕ)
write_down fn w = record w { rest = fn ∷ w.rest }

clock-IsClock : IsClock clock
clock-IsClock = record {
  nodup = ((omega arith, (omega arith, tt)), ((omega arith, tt), (tt, tt)));
  given = (omega arith, (omega arith, (omega arith, tt)));
}

advanced :
    advance calm write_down 5 1000 world
    ≡ ok (
        some (
          2,
          record { clock = record later_clock { timers = late_timer ∷ [] }; rest = 7 ∷ 8 ∷ [] },
        ))
unfolding advance
advanced = refl

advance_total_example :
    (r : ℕ × World (List ℕ)) × (advance calm write_down 4 1000 world ≡ ok (some r))
advance_total_example =
    advance_total calm write_down (λ r. 0) (λ w. omega arith) (λ fn w. omega arith) 4 1000 world
      refl (omega arith)

advance_quiet_example :
    (fired : List Timer) × AreDue 2000 world.clock.timers fired
    × (advance calm write_down 3 1000 world
        ≡ ok (some (length fired, run_timers calm write_down fired (moved 1000 world))))
    × ((run_timers calm write_down fired (moved 1000 world)).clock
        ≡ record later_clock { timers = late_timer ∷ [] })
advance_quiet_example =
    advance_quiet calm write_down (λ w. refl) (λ fn w. refl) 3 1000 world refl clock-IsClock.nodup
      (omega arith)
