-- ===== src/Scd/Models.antt =====
-- pkg/scd/models: the values that the repository hands out and takes in.
mod Defs
pub mod Rest
pub mod TimeRange
pub use Defs.*
unfoldable pub use Defs.{
  new_ovn_from_time, replace_all, requires_subscription, requires_key, is_valid_in_dss,
  requires_cmsa, oi_requires_key, next_version,
}
