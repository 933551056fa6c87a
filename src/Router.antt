-- ===== src/Router.antt =====
-- core/kernel/router.py: the route table, and how a method and a path find their route.
pub mod Defs
pub mod Segments
pub mod Shape
pub mod Outcome
mod Tests
