-- ===== src/Json.antt =====
-- The documents that the program handles: what `json.loads` returns, as far as the model goes
-- (whole numbers, no floats), and core/util/json.py on them.
mod Defs
pub mod Canonical
pub use Defs.*
