-- ===== src/Models/Union.antt =====
-- `UnionCellsVolumes4D` of pkg/models/geo.go.
mod Loop
pub mod Block
pub mod Covers
pub mod Exact
mod Tests
pub use Loop.{Acc}
unfoldable pub use Loop.{start, widen, step, loop, union_cells_volumes_4d}
