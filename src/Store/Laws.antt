-- ===== src/Store/Laws.antt =====
-- Proofs about `Store`.
pub mod Entities
pub mod Seq
pub mod Ops
pub mod Rejected
pub mod Succeeds
pub mod Writes
pub mod Update
pub mod Deletes
pub mod Records
pub mod Pages
pub mod Restore
pub mod Changed
pub mod Refines
