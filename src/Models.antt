-- ===== src/Models.antt =====
-- pkg/models, pkg/geo: what the two services share.
mod Volume
pub mod Union
pub mod Version
pub use Volume.{CellsVolume4D, Altitude, max_result_limit, zero_time, minimum_cell_level}
unfoldable pub use Volume.{after, before, levelify, validate_cell, time_p}
