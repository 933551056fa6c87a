-- ===== src/Unit.antt =====
-- The unit that serves requests, core/kernel/unit.py: request log, access, faults and pipeline.
pub mod Requests
pub mod Access
pub mod RequestFaults
pub mod Pointer
pub mod State
pub mod ResponseFaults
pub mod Pipeline
pub mod Stages
pub mod Handle
mod Laws
mod Tests
mod AnswerTests
mod AccessTests
