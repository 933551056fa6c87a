-- ===== src/Text.antt =====
-- Python's order on `str`, by code points, and `sorted` over texts.
mod Order
unfoldable pub use Order.{sorted}
pub use Order.{text_le, text_le_total, insert_sorted, SortedText, sorted-SortedText}
pub use Order.{mem-append, mem-keep, mem-sorted, Member}
pub use Order.{text_eq, text_eq_iff, text_eq_refl, text_eq_comm, mem_text, mem_text_iff}
