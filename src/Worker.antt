-- ===== src/Worker.antt =====
-- core/webhooks/worker.py: one thread, one queue, and the handshake of `quiesce`.
pub mod Defs
pub mod Steps
pub mod Runs
pub mod Quiesce
mod Tests
