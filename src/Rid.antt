-- ===== src/Rid.antt =====
-- pkg/rid: remote identification. `Models` is pkg/rid/models, `Store` pkg/rid/store/memstore, and `Isa`
-- and `Subscriptions` are the two files of pkg/rid/operations.
pub mod Models
pub mod Store
pub mod Isa
pub mod Subscriptions
pub mod Run
