-- ===== src/Webhooks.antt =====
-- Webhook delivery, core/webhooks/: events, subscribers, attempts, the retry schedule and the log.
pub mod Models
pub mod Retry
pub mod State
pub mod Log
pub mod Attempts
pub mod Enqueue
pub mod Listen
pub mod Work
pub mod Samples
mod Tests
mod Laws
