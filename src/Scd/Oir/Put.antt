-- ===== src/Scd/Oir/Put.antt =====
-- `executePutOperationalIntentReference`
pub mod Trace
pub mod Safety
pub mod Writes
pub mod Stored
pub mod Chosen
pub mod Attached
mod Defs
pub use Defs.{PutResult, response, conflicting, Prior}
unfoldable pub use Defs.{
  subscription_ids, prior_of_old, prior_of_new, prior, may_not_put, check_key, upsert_attached,
  remove_previous, notify_volume, write_oir, put_resolved, put_operational_intent_reference,
}
