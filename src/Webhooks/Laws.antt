-- ===== src/Webhooks/Laws.antt =====
-- Theorems on the webhook dispatcher.
pub mod Settlement
pub mod Jobs
pub mod Settling
pub mod Outcome
pub mod Sending
pub mod Faulted
