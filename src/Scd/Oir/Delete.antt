-- ===== src/Scd/Oir/Delete.antt =====
-- `executeDeleteOperationalIntentReference`
pub mod Trace
pub mod Laws
use dss.Prelude.{Bool, Option, none, some, List, [], ◌∷◌, not, ◌==◌, if◌then◌else◌}
use dss.Exec.{
  Result, ok, err, coded, uncoded, panic, not_found, permission_denied, version_mismatch,
  precondition_failed, Exec, pure, raise, raise_if, when, ◌>>=◌, ◌>>◌,
}
use dss.External.{External}
use dss.Scd.Models.{EntityId, Manager, Ovn, down, OperationalIntent, Subscription}
use dss.Scd.Models.Rest.{
  OperationalIntentReference, SubscriberToNotify, operational_intent_to_rest,
  make_subscribers_to_notify,
}
use dss.Scd.Store.Records.{State}
use dss.Scd.Store.Subscriptions.{
  get_subscription, delete_subscription, lock_subscriptions_on_cells,
  increment_notification_indices_for_operational_intents,
}
use dss.Scd.Store.OperationalIntents.{get_operational_intent, delete_operational_intent}
use dss.Scd.Oir.Params.{subscription_is_implicit_and_only_attached_to_oir}

pub record DeleteOirPayload : Type 0 where
  pub id : EntityId
  pub manager : Manager
  pub ovn : Ovn

-- `ChangeOperationalIntentReferenceResponse`
pub record ChangeResponse : Type 0 where
  pub operational_intent_reference : OperationalIntentReference
  pub subscribers : List SubscriberToNotify

-- The subscriptions to lock for an operational intent that may have one.
abbrev pub attached_ids : Option EntityId → List EntityId
attached_ids none = []
attached_ids (some id) = id ∷ []

-- `if p == nil { m }`, where `m` returns an error.
abbrev pub or_raise : {A : Type 0} → Option A → Exec State A → Exec State A
or_raise none m = m
or_raise (some a) m = pure a

-- `repo.DeleteSubscription(ctx, previousSubscription.ID)`, at a subscription that is not nil.
unfoldable pub remove_subscription : Option Subscription → Exec State (Unit {0})
remove_subscription none = raise panic
remove_subscription (some sub) = delete_subscription sub.id

-- The requests that the guards let through, and what the others are told.
unfoldable pub check_delete : DeleteOirPayload → OperationalIntent → Exec State (Unit {0})
check_delete payload old = do
  raise_if (not (old.manager == payload.manager)) (coded permission_denied)
  raise_if (not (old.ovn == payload.ovn)) (coded version_mismatch)
  raise_if (old.uss_availability == down) (coded precondition_failed)

module _ (ext : External) where
  -- The subscription of an operational intent that has one must be in the repository.
  unfoldable pub previous_subscription : Option EntityId → Exec State (Option Subscription)
  previous_subscription none = pure none
  previous_subscription (some id) = do
    found ← get_subscription ext id
    sub ← or_raise found (raise uncoded)
    pure (some sub)

  -- What a delete that passed its guards does.
  unfoldable pub delete_checked : EntityId → OperationalIntent → Exec State ChangeResponse
  unfolding previous_subscription remove_subscription
  delete_checked id old = do
    lock_subscriptions_on_cells old.cells (attached_ids old.subscription_id) old.start_time
        old.end_time
    previous ← previous_subscription old.subscription_id
    remove_implicit ← subscription_is_implicit_and_only_attached_to_oir id previous
    subs_to_notify ← increment_notification_indices_for_operational_intents ext old.volume
    delete_operational_intent id
    when remove_implicit (remove_subscription previous)
    pure (record {
      operational_intent_reference = operational_intent_to_rest ext old;
      subscribers = make_subscribers_to_notify subs_to_notify;
    })

  unfoldable pub delete_operational_intent_reference : DeleteOirPayload → Exec State ChangeResponse
  unfolding check_delete delete_checked
  delete_operational_intent_reference payload = do
    found ← get_operational_intent ext payload.id
    old ← or_raise found (raise (coded not_found))
    check_delete payload old
    delete_checked payload.id old
