-- ===== src/Dict.antt =====
-- Python's `dict` with text keys, as the list of its entries in insertion order.
mod Defs
pub mod Laws
unfoldable pub use Defs.{Dict, lookup, has, insert, modify, remove, values, keys}
