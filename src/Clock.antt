-- ===== src/Clock.antt =====
-- core/time/clock.py: the clock and the timers of a unit.
pub mod Defs
pub mod Timers
pub mod Sorted
pub mod Advance
pub mod Terminates
mod Tests
