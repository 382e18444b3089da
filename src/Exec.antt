-- ===== src/Exec.antt =====
-- Errors and effects. pkg/errors/errors.go gives the codes; a Go function that returns `(v, error)`
-- returns a `Result`, and a method that reads or writes a store, and may fail, is an `Exec`.
-- What was written before an error stays written, so the store comes back beside the error too.
mod Defs
pub mod Laws
pub mod Reads
pub mod Keeps
pub use Defs.*
unfoldable pub use Defs.{collect_result}
