-- ===== src/Store.antt =====
-- core/state/store.py: entities in named collections, the journal of every committed mutation,
-- and the idempotency records.
pub mod State
pub mod Journal
pub mod Diff
pub mod Collection
pub mod Idempotency
pub mod Snapshot
pub mod Page
pub mod Digest
pub mod Laws
mod Tests
mod CursorTests
