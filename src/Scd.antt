-- ===== src/Scd.antt =====
-- pkg/scd: strategic conflict detection. `Models` is pkg/scd/models, `Store` pkg/scd/store/memstore,
-- and the others pkg/scd/operations: `Oir` is operational_intents.go, `Constraints` constraint.go,
-- `Availability` availability.go, `Subscriptions` subscription.go.
pub mod Models
pub mod Store
pub mod Oir
pub mod Constraints
pub mod Subscriptions
pub mod Availability
pub mod Run
pub mod Replica
