-- ===== src/Clock/Defs.antt =====
-- `Clock` and `PendingTimer` of core/time/clock.py. Times are whole milliseconds. A callback is
-- known by a number, and what it does is a parameter of `advance`.
use vendorfake.Prelude.{
  ℕ, zero, suc, ◌+◌, ◌-◌, String, Bool, not, ◌&&◌, ◌||◌, Option, none, some, List, [], ◌∷◌, ◌++◌,
  map, keep, ltb, leb, ◌==◌, if◌then◌else◌,
}
use vendorfake.Errors.{Result, ok, err, value_error}

pub data ClockMode : Type 0 where
  real virtual : ClockMode

pub record Timer : Type 0 where
  pub id : ℕ
  pub due_at : ℕ
  pub fn : ℕ
  pub label : String

-- `wall` is the reading of the machine's clock, `iso` the formatting of an instant as RFC 3339
-- by `datetime`. `handles` are the ids of the armed thread timers (real mode only).
pub record Clock : Type 0 where
  pub mode : ClockMode
  pub wall : ℕ
  pub virtual_now : ℕ
  pub next_id : ℕ
  pub timers : List Timer
  pub handles : List ℕ
  pub iso : ℕ → String

-- `Clock.now`
unfoldable pub now : Clock → ℕ
now c = elim c.mode [ virtual ↦ c.virtual_now | real ↦ c.wall ]

-- `Clock.iso_ms`
unfoldable pub iso_ms : Clock → String
unfolding now
iso_ms c = c.iso (now c)

abbrev pub arm : ClockMode → ℕ → List ℕ → List ℕ
arm real timer_id handles = handles ++ timer_id ∷ []
arm virtual timer_id handles = handles

-- `Clock.after`
unfoldable pub after : ℕ → String → ℕ → Clock → ℕ × Clock
unfolding now
after delay label fn c = (
  c.next_id,
  record c {
    next_id = c.next_id + 1;
    timers =
        c.timers ++ record { id = c.next_id; due_at = now c + delay; fn = fn; label = label } ∷ [];
    handles = arm c.mode c.next_id c.handles;
  },
)

-- `self._timers.pop(timer_id, None)`: ids are the keys, each once.
unfoldable pub without : ℕ → List Timer → List Timer
without timer_id [] = []
without timer_id (t ∷ ts) = if t.id == timer_id then ts else t ∷ without timer_id ts

unfoldable pub lookup_timer : ℕ → List Timer → Option Timer
lookup_timer timer_id [] = none
lookup_timer timer_id (t ∷ ts) = if t.id == timer_id then some t else lookup_timer timer_id ts

abbrev pub drop_handle : ℕ → List ℕ → List ℕ
drop_handle timer_id handles = keep (λ h. not (h == timer_id)) handles

-- `Clock.cancel`
unfoldable pub cancel : ℕ → Clock → Clock
unfolding without
cancel timer_id c = record c {
  timers = without timer_id c.timers;
  handles = drop_handle timer_id c.handles;
}

-- `Clock._fire_real`: the callback to run, if the timer still stands.
unfoldable pub fire_real : ℕ → Clock → Option ℕ × Clock
unfolding lookup_timer cancel
fire_real timer_id c =
    (elim (lookup_timer timer_id c.timers) [ none ↦ none | some t ↦ some t.fn ], cancel timer_id c)

-- The key `(t.due_at, t.id)` of the sort.
unfoldable pub before : Timer → Timer → Bool
before s t = ltb s.due_at t.due_at || (s.due_at == t.due_at && leb s.id t.id)

unfoldable pub insert_timer : Timer → List Timer → List Timer
unfolding before
insert_timer t [] = t ∷ []
insert_timer t (u ∷ us) = if before t u then t ∷ u ∷ us else u ∷ insert_timer t us

unfoldable pub sort_timers : List Timer → List Timer
unfolding insert_timer
sort_timers [] = []
sort_timers (t ∷ ts) = insert_timer t (sort_timers ts)

abbrev pub is_due : ℕ → Timer → Bool
is_due instant t = leb t.due_at instant

-- `due` in the loop of `Clock.advance`
unfoldable pub due_timers : Clock → List Timer
unfolding sort_timers
due_timers c = sort_timers (keep (is_due c.virtual_now) c.timers)

-- The clock and whatever else the callbacks change.
pub record World (R : Type 0) : Type 0 where
  pub clock : Clock
  pub rest : R

module _ {R : Type 0} (settle : World R → World R) (fire : ℕ → World R → World R) where
  -- The body of the loop: the timer is removed before its callback runs.
  unfoldable pub fire_first : Timer → World R → World R
  unfolding without
  fire_first t w =
      fire t.fn (record w { clock = record (w.clock) { timers = without t.id w.clock.timers } })

  -- The loop of `Clock.advance`; `none` when the fuel runs out.
  unfoldable pub advance_loop : ℕ → World R → ℕ → Option (ℕ × World R)
  unfolding due_timers fire_first
  advance_loop zero w fired = none
  advance_loop (suc fuel) w fired =
      let w' = settle w in
      elim (due_timers w'.clock) [
        | [] ↦ some (fired, w')
        | t ∷ ts ↦ advance_loop fuel (fire_first t w') (fired + 1)
      ]

  -- `Clock.advance`
  unfoldable pub advance : ℕ → ℕ → World R → Result (Option (ℕ × World R))
  unfolding advance_loop
  advance fuel ms w = elim w.clock.mode [
    | real ↦ err value_error
    | virtual ↦ ok (
        advance_loop fuel
          (record w { clock = record (w.clock) { virtual_now = w.clock.virtual_now + ms } }) 0)
  ]

pub record PendingTimer : Type 0 where
  pub id : ℕ
  pub label : String
  pub due_in_ms : ℕ

-- `Clock.pending`. A timer that is overdue has a negative rest in Python; here it is 0.
unfoldable pub pending : Clock → List PendingTimer
unfolding now
pending c = map (λ t. record { id = t.id; label = t.label; due_in_ms = t.due_at - now c }) c.timers

unfoldable pub cancel_all : List Timer → Clock → Clock
unfolding cancel
cancel_all [] c = c
cancel_all (t ∷ ts) c = cancel_all ts (cancel t.id c)

-- `Clock.clear_all`
unfoldable pub clear_all : Clock → Clock
unfolding cancel_all
clear_all c = cancel_all c.timers c
