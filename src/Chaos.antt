-- ===== src/Chaos.antt =====
-- core/chaos/: standing fault rules, the engine that counts and fires them, and the selector.
pub mod Glob
pub mod Rules
pub mod Faults
pub mod Engine
pub mod Evaluate
pub mod Counters
pub mod Visit
pub mod Firing
pub mod Status
pub mod Selector
mod Tests
