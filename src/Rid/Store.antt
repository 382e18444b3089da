-- ===== src/Rid/Store.antt =====
-- pkg/rid/store/memstore, the repository in memory.
pub mod Records
pub mod Isas
pub mod Subscriptions
pub mod Quota
pub mod Keeps
pub mod Fixtures
