-- ===== src/Scd/Subscriptions/Put.antt =====
-- pkg/scd/operations/subscription.go: `executePutSubscription`, from the validated subscription on,
-- with `ValidateDependentOps` of pkg/scd/models/subscriptions.go.
pub mod Covers
pub mod Laws
mod Tests
use dss.Prelude.{
  Bool, true, false, Option, none, some, List, [], ◌∷◌, map, not, ◌==◌, ◌+◌, ◌*◌, ◌-◌, ltb,
  if◌then◌else◌,
}
use dss.Exec.{
  Result, ok, err, coded, uncoded, already_exists, bad_request, not_found, permission_denied,
  version_mismatch, with_code, map_err, deref, bind_result, Exec, pure, lift, ◌>>=◌, ◌>>◌,
}
use dss.External.{External, Time}
use dss.Models.{CellsVolume4D, Altitude, after}
use dss.Scd.Models.{EntityId, Manager, OperationalIntent, Subscription}
use dss.Scd.Models.Rest.{
  OperationalIntentReference, ConstraintReference, RestSubscription, subscription_to_rest,
}
use dss.Scd.Models.TimeRange.{minute, adjust_time_range}
use dss.Scd.Store.Records.{State}
use dss.Scd.Store.Subscriptions.{get_subscription, upsert_subscription}
use dss.Scd.Store.OperationalIntents.{
  get_operational_intent, get_dependent_operational_intents, search_operational_intents, no_cells,
}
use dss.Scd.Store.Constraints.{search_constraints}
use dss.Scd.Oir.Key.{scrubbed, scrubbed_constraint}

-- `PutSubscriptionResponse`
pub record PutSubscriptionResponse : Type 0 where
  pub subscription : RestSubscription
  pub operational_intent_references : Option (List OperationalIntentReference)
  pub constraint_references : Option (List ConstraintReference)

-- The first branches: a creation has no version, an update that of the stored subscription.
unfoldable pub check_requested : Subscription → Option Subscription → Result (Unit {0})
check_requested sub none = if not (sub.version == "") then err (coded not_found) else ok tt
check_requested sub (some old) =
    if sub.version == ""
    then err (coded already_exists)
    else if not (sub.version == old.version)
    then err (coded version_mismatch)
    else if not (old.manager == sub.manager)
    then err (coded permission_denied)
    else ok tt

-- The error of a validation that failed.
abbrev refuse_if : Bool → Result (Unit {0})
refuse_if b = if b then err uncoded else ok tt

-- The test of the altitudes; the upper ones are read only if the lower ones pass.
unfoldable pub covers_altitudes : CellsVolume4D → CellsVolume4D → Result (Unit {0})
covers_altitudes sub op = bind_result (deref op.altitude_lo) (λ op_lo.
    bind_result (deref sub.altitude_lo) (λ lo.
      if ltb op_lo lo
      then err uncoded
      else bind_result (deref op.altitude_hi)
          (λ op_hi. bind_result (deref sub.altitude_hi) (λ hi. refuse_if (ltb hi op_hi)))))

-- The test of the times: the subscription may start five minutes later.
unfoldable pub covers_times : CellsVolume4D → CellsVolume4D → Result (Unit {0})
covers_times sub op = bind_result (deref sub.start_time) (λ start.
    bind_result (deref op.start_time) (λ op_start.
      if ltb (5 * minute) (start - op_start)
      then err uncoded
      else bind_result (deref op.end_time)
          (λ op_end. bind_result (deref sub.end_time) (λ end. refuse_if (after op_end end)))))

module _ (ext : External) where
  -- `getOperations`
  unfoldable pub get_operations : List EntityId → Exec State (List (Option OperationalIntent))
  get_operations [] = pure []
  get_operations (id ∷ ids) = do
    operation ← get_operational_intent ext id
    rest ← get_operations ids
    pure (operation ∷ rest)

  -- `ValidateDependentOp`
  unfoldable pub validate_dependent_op : Subscription → OperationalIntent → Result (Unit {0})
  unfolding covers_altitudes covers_times
  validate_dependent_op sub op =
      if not (ext.contains sub.cells op.cells)
      then err uncoded
      else bind_result (covers_altitudes sub.volume op.volume)
          (λ _. covers_times sub.volume op.volume)

  -- `ValidateDependentOps`; an operational intent that was not found is read as a nil pointer.
  unfoldable pub validate_dependent_ops :
      Subscription → List (Option OperationalIntent) → Result (Unit {0})
  unfolding validate_dependent_op
  validate_dependent_ops sub [] = ok tt
  validate_dependent_ops sub (op ∷ ops) =
      let rest = validate_dependent_ops sub ops in
      bind_result
        (map_err (with_code bad_request) (bind_result (deref op) (validate_dependent_op sub)))
        (λ _. rest)

  -- The subscription to store, with the ids of the operational intents that depend on it.
  unfoldable pub check_put :
      Subscription → Option Subscription → Exec State (Subscription × List EntityId)
  unfolding check_requested get_operations validate_dependent_ops
  check_put sub none = do lift (check_requested sub none); pure (sub, [])
  check_put sub (some old) = do
    lift (check_requested sub (some old))
    let indexed = record sub { notification_index = old.notification_index }
    dependent ← get_dependent_operational_intents sub.id
    operations ← get_operations dependent
    lift (validate_dependent_ops indexed operations)
    pure (indexed, dependent)

  -- The operational intents in the area, for a subscription that asks for them.
  unfoldable pub operational_intent_references :
      Manager → Subscription → Exec State (Option (List OperationalIntentReference))
  operational_intent_references manager sub =
      if sub.notify_for_operational_intents
      then (do
        relevant ←
            (if not (no_cells sub.cells)
              then search_operational_intents ext sub.volume
              else pure [])
        pure (some (map (scrubbed ext manager) relevant)))
      else pure none

  unfoldable pub constraint_references :
      Manager → Subscription → Exec State (Option (List ConstraintReference))
  constraint_references manager sub =
      if sub.notify_for_constraints
      then (do
        constraints ← search_constraints ext sub.volume
        pure (some (map (scrubbed_constraint ext manager) constraints)))
      else pure none

  unfoldable pub put_response :
      Manager → Subscription → List EntityId → Exec State PutSubscriptionResponse
  unfolding operational_intent_references constraint_references
  put_response manager sub dependent = do
    operations ← operational_intent_references manager sub
    constraints ← constraint_references manager sub
    pure (record {
      subscription = subscription_to_rest ext sub dependent;
      operational_intent_references = operations;
      constraint_references = constraints;
    })

  -- `executePutSubscription`
  unfoldable pub execute_put_subscription : Time → Subscription → Exec State PutSubscriptionResponse
  unfolding check_put put_response
  execute_put_subscription now requested = do
    old ← get_subscription ext requested.id
    adjusted ← lift (adjust_time_range now requested old)
    checked ← check_put adjusted old
    stored ← upsert_subscription ext now checked.0
    put_response requested.manager stored checked.1
