-- ===== src/Scd/Oir.antt =====
-- operational_intents.go
pub mod Params
pub mod Delete
pub mod Resolve
pub mod Key
pub mod Put
pub mod Query
pub mod Reads
pub mod Keeps
pub mod Attached
mod Tests
