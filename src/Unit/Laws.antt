-- ===== src/Unit/Laws.antt =====
-- Theorems on the unit.
pub mod Uncommitted
pub mod Staged
pub mod CommitAfter
pub mod Replay
pub mod Recorded
pub mod Refused
pub mod Pointers
pub mod Escapes
pub mod Answers
pub mod Guarded
