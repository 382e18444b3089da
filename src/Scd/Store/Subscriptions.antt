-- ===== src/Scd/Store/Subscriptions.antt =====
-- subscriptions.go
pub mod Laws
mod Defs
unfoldable pub use Defs.{
  subscription_to_model, in_cells_volume, search_subscriptions, get_subscription,
  upsert_subscription, delete_subscription, bumped, increment_loop, increment_notification_indices,
  increment_notification_indices_for_operational_intents,
  increment_notification_indices_for_constraints, lock_subscriptions_on_cells,
  list_expired_subscriptions, delete_expired_subscriptions, count_subscriptions,
}
