-- ===== src/Scd/Store/OperationalIntents.antt =====
-- operational_intents.go
pub mod Build
pub mod Laws
pub mod Search
mod Defs
unfoldable pub use Defs.{
  too_low, too_high, operational_intent_to_model, build_operational_intents, get_operational_intent,
  delete_operational_intent, upsert_operational_intent, oi_matches, search_operational_intents,
  depends_on, get_dependent_operational_intents, count_operational_intents, record_of,
  list_expired_operational_intents, delete_expired_operational_intents, init_availabilities,
  fill_availabilities, availability_of, no_cells,
}
