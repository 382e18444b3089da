-- ===== src/GoMap.antt =====
-- Go's `map[K]V` with text keys, as the stores under pkg/*/store/memstore use it. The entries stand
-- in the order in which a `range` over the map visits them. Go leaves that order open: a statement
-- that ranges over all maps ranges over all orders. A map made by `set` and `delete` from the empty
-- one holds each key once (`HasDistinctKeys`).
mod Laws
mod Entries
mod Counts
pub use Laws.*
mod Defs
pub use Defs.{GoMap}
unfoldable pub use Defs.{get, set, delete, values, modify_where, HasDistinctKeys}
pub use Entries.*
pub use Counts.*
