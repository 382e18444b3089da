-- ===== src/Scd/Subscriptions.antt =====
-- pkg/scd/operations/subscription.go: reading and deleting a subscription, from the parsed id on.
pub mod Laws
pub mod Complete
pub mod Put
pub mod Query
mod Tests
use dss.Prelude.{Bool, true, false, Option, none, some, List, [], ◌∷◌, not, ◌==◌, if◌then◌else◌}
use dss.Exec.{
  ok, err, coded, not_found, permission_denied, version_mismatch, bad_request, Exec, pure, raise,
  raise_if, ◌>>=◌, ◌>>◌,
}
use dss.External.{External}
use dss.Scd.Models.{EntityId, Manager, Ovn, Subscription}
use dss.Scd.Models.Rest.{RestSubscription, subscription_to_rest}
use dss.Scd.Store.Records.{State}
use dss.Scd.Store.Subscriptions.{get_subscription, delete_subscription}
use dss.Scd.Store.OperationalIntents.{get_dependent_operational_intents}
use dss.Scd.Oir.Delete.{or_raise}

pub record DeleteSubscriptionPayload : Type 0 where
  pub id : EntityId
  pub manager : Manager
  pub version : Ovn

-- `len(dependentOps) > 0`
unfoldable pub has_dependents : List EntityId → Bool
has_dependents [] = false
has_dependents (d ∷ ds) = true

-- The manager and the version of a deletion must be those of the stored subscription.
unfoldable pub check_delete_subscription :
    DeleteSubscriptionPayload → Subscription → Exec State (Unit {0})
check_delete_subscription payload old = do
  raise_if (not (old.manager == payload.manager)) (coded permission_denied)
  raise_if (not (old.version == payload.version)) (coded version_mismatch)

module _ (ext : External) where
  -- A deletion after the checks of the manager and the version.
  unfoldable pub delete_unused_subscription : EntityId → Subscription → Exec State RestSubscription
  delete_unused_subscription id old = do
    dependent ← get_dependent_operational_intents id
    raise_if (has_dependents dependent) (coded bad_request)
    delete_subscription id
    pure (subscription_to_rest ext old dependent)

  -- `executeDeleteSubscription`
  unfoldable pub execute_delete_subscription :
      DeleteSubscriptionPayload → Exec State RestSubscription
  unfolding check_delete_subscription delete_unused_subscription
  execute_delete_subscription payload = do
    found ← get_subscription ext payload.id
    old ← or_raise found (raise (coded not_found))
    check_delete_subscription payload old
    delete_unused_subscription payload.id old

  -- `executeGetSubscription`
  unfoldable pub execute_get_subscription : Manager → EntityId → Exec State RestSubscription
  execute_get_subscription manager id = do
    found ← get_subscription ext id
    sub ← or_raise found (raise (coded not_found))
    raise_if (not (manager == sub.manager)) (coded permission_denied)
    dependent ← get_dependent_operational_intents id
    pure (subscription_to_rest ext sub dependent)
