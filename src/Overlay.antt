-- ===== src/Overlay.antt =====
-- core/config/overlay.py: a partial seed document laid over the profile's own.
pub mod Defs
pub mod Merged
mod Tests
