-- ===== src/Dict.antt =====
-- Python's `dict` with text keys: an association list in insertion order. A key that is
-- assigned again keeps its place, a new one goes to the end.
mod Defs
pub mod Laws
unfoldable pub use Defs.{Dict, get, has, put, pop, keys, values, size, first}
