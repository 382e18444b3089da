-- ===== src/Scd/Store.antt =====
-- pkg/scd/store/memstore: the in-memory repository, which the Raft store applies operations to.
pub mod Records
pub mod Spec
pub mod Valid
pub mod Availability
pub mod Subscriptions
pub mod OperationalIntents
pub mod Constraints
pub mod Keeps
pub mod Checkpoint
pub mod Fixtures
mod Tests
