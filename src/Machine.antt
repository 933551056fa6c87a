-- ===== src/Machine.antt =====
-- core/state/machine.py: the states and moves of an entity, declared as data and enforced.
pub mod Defs
pub mod Moves
pub mod Reach
mod Tests
unfoldable pub use Defs.*
