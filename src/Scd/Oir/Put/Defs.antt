-- ===== src/Scd/Oir/Put/Defs.antt =====
-- The operation, in the stages of the source.
use dss.Prelude.{
  Bool, Option, none, some, List, [], ◌∷◌, ◌++◌, not, ◌==◌, ◌&&◌, ◌||◌, if◌then◌else◌,
}
use dss.Exec.{
  coded, panic, precondition_failed, Exec, pure, raise, raise_if, lift, when, ◌>>=◌, ◌>>◌,
}
use dss.External.{External, Time}
use dss.Models.{CellsVolume4D}
use dss.Models.Union.{union_cells_volumes_4d}
use dss.Scd.Models.{
  EntityId, Manager, Ovn, VersionNumber, next_version, UssAvailabilityState, unknown, down,
  accepted, activated, requires_key, OperationalIntent, Subscription,
}
use dss.Scd.Models.Rest.{operational_intent_to_rest, make_subscribers_to_notify}
use dss.Scd.Store.Records.{State}
use dss.Scd.Store.Availability.{availability_or_default}
use dss.Scd.Store.Subscriptions.{
  get_subscription, upsert_subscription, delete_subscription, lock_subscriptions_on_cells,
  increment_notification_indices_for_operational_intents,
}
use dss.Scd.Store.OperationalIntents.{get_operational_intent, upsert_operational_intent}
use dss.Scd.Oir.Params.{ValidOirParams, to_oir, validate_upsert_request_against_previous_oir}
use dss.Scd.Oir.Delete.{ChangeResponse, attached_ids}
use dss.Scd.Oir.Key.{AirspaceConflict, validate_key_and_provide_conflict_response}
use dss.Scd.Oir.Resolve.{Resolved, resolve_subscription}

-- `PutOperationalIntentReferenceResult`: exactly one of the two is set.
pub data PutResult : Type 0 where
  response : ChangeResponse → PutResult
  conflicting : AirspaceConflict → PutResult

-- The ids of the subscriptions to lock.
unfoldable pub subscription_ids : Option OperationalIntent → ValidOirParams → List EntityId
subscription_ids old params =
    elim old [ none ↦ [] | some o ↦ attached_ids o.subscription_id ]
    ++ (if not (params.subscription_id == "") then params.subscription_id ∷ [] else [])

-- What the stored operational intent, if any, contributes.
pub record Prior : Type 0 where
  pub version : VersionNumber
  pub past_ovns : List Ovn
  pub previous_sub : Option Subscription
  pub uss_availability : UssAvailabilityState

-- A USS that is down may not accept or activate.
unfoldable pub may_not_put : Prior → ValidOirParams → Bool
may_not_put prior params =
    prior.uss_availability == down && (params.state == accepted || params.state == activated)

module _ (ext : External) where
  unfoldable pub prior_of_old : ValidOirParams → OperationalIntent → Exec State Prior
  prior_of_old params old = do
    previous ← elim old.subscription_id [ none ↦ pure none | some id ↦ get_subscription ext id ]
    pure (record {
      version = next_version old.version;
      past_ovns = old.past_ovns ++ params.ovn ∷ [];
      previous_sub = previous;
      uss_availability = old.uss_availability;
    })

  unfoldable pub prior_of_new : Manager → Exec State Prior
  prior_of_new manager = do
    availability ← availability_or_default ext manager unknown
    pure (record {
      version = 1;
      past_ovns = [];
      previous_sub = none;
      uss_availability = availability;
    })

  unfoldable pub prior : Manager → ValidOirParams → Option OperationalIntent → Exec State Prior
  unfolding prior_of_old prior_of_new
  prior manager params none = prior_of_new manager
  prior manager params (some old) = prior_of_old params old

  unfoldable pub check_key :
      Manager → ValidOirParams → Option Subscription → Exec State (Option AirspaceConflict)
  check_key manager params attached =
      if requires_key params.state
      then validate_key_and_provide_conflict_response ext manager params attached
      else pure none

  module _ (now : Time) where
    -- The subscription to attach, stored if it is new or was changed.
    unfoldable pub upsert_attached : Resolved → Exec State (Option Subscription)
    upsert_attached r =
        if r.upsert_attached_sub
        then elim r.attached_sub [
          | none ↦ raise panic
          | some sub ↦ (do stored ← upsert_subscription ext now sub; pure (some stored))
        ]
        else pure r.attached_sub

    unfoldable pub remove_previous : Resolved → Option Subscription → Exec State (Unit {0})
    remove_previous r previous =
        when r.remove_previous_implicit_subscription
          (elim previous [ none ↦ raise panic | some sub ↦ delete_subscription sub.id ])

    unfoldable pub notify_volume : ValidOirParams → Option OperationalIntent → CellsVolume4D
    notify_volume params none = params.volume
    notify_volume params (some old) = union_cells_volumes_4d ext (params.volume ∷ old.volume ∷ [])

    -- The writes.
    unfoldable pub write_oir :
        Manager
        → ValidOirParams
        → Option OperationalIntent
        → Prior
        → Resolved
        → Exec State PutResult
    unfolding upsert_attached remove_previous notify_volume
    write_oir manager params old prior r = do
      attached ← upsert_attached r
      op ←
          upsert_operational_intent ext now
            (to_oir params manager attached prior.version prior.past_ovns)
      remove_previous r prior.previous_sub
      subs_to_notify ←
          increment_notification_indices_for_operational_intents ext (notify_volume params old)
      pure (
          response (record {
            operational_intent_reference = operational_intent_to_rest ext op;
            subscribers = make_subscribers_to_notify subs_to_notify;
          }))

    -- From the resolved subscription on.
    unfoldable pub put_resolved :
        Manager
        → ValidOirParams
        → Option OperationalIntent
        → Prior
        → Resolved
        → Exec State PutResult
    unfolding check_key write_oir
    put_resolved manager params old prior r = do
      found ← check_key manager params r.attached_sub
      elim found [ some c ↦ pure (conflicting c) | none ↦ write_oir manager params old prior r ]

    unfoldable pub put_operational_intent_reference :
        Manager → ValidOirParams → Exec State PutResult
    unfolding prior put_resolved may_not_put subscription_ids
    put_operational_intent_reference manager params = do
      old ← get_operational_intent ext params.id
      lock_subscriptions_on_cells params.volume.cells (subscription_ids old params)
          params.volume.start_time params.volume.end_time
      lift (validate_upsert_request_against_previous_oir manager params.ovn old)
      p ← prior manager params old
      raise_if (may_not_put p params) (coded precondition_failed)
      r ← resolve_subscription ext p.previous_sub manager params
      put_resolved manager params old p r
