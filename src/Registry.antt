-- ===== src/Registry.antt =====
-- core/capability/registry.py: which capabilities of a vendor are usable.
pub mod Defs
pub mod Views
pub mod Parts
pub mod Closure
pub mod Usable
pub mod Delta
mod Tests
