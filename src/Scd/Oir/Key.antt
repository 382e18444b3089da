-- ===== src/Scd/Oir/Key.antt =====
-- `validateKeyAndProvideConflictResponse`
pub mod Laws
pub mod Conflict
use dss.Prelude.{
  String, Bool, true, false, Option, none, some, List, [], ◌∷◌, map, not, ◌==◌, ◌&&◌, filter,
  if◌then◌else◌,
}
use dss.Exec.{Result, ok, err, Exec, pure, ◌>>=◌}
use dss.External.{External}
use dss.Scd.Models.{
  Manager, no_ovn_phrase, OperationalIntent, Constraint, Subscription, oi_requires_key,
}
use dss.Scd.Models.Rest.{
  OperationalIntentReference, ConstraintReference, operational_intent_to_rest, constraint_to_rest,
}
use dss.Scd.Store.Records.{State}
use dss.Scd.Store.OperationalIntents.{search_operational_intents}
use dss.Scd.Store.Constraints.{search_constraints}
use dss.Scd.Oir.Params.{ValidOirParams, in_key}

-- `AirspaceConflictResponse`, without its constant message. A list that is not set is nil.
pub record AirspaceConflict : Type 0 where
  pub missing_operational_intents : Option (List OperationalIntentReference)
  pub missing_constraints : Option (List ConstraintReference)

-- An operational intent of the area that the key must name and does not.
unfoldable pub is_missing : ValidOirParams → OperationalIntent → Bool
is_missing params op =
    not (in_key params op.ovn) && (oi_requires_key op && not (op.id == params.id))

unfoldable pub constraint_is_missing : ValidOirParams → Constraint → Bool
constraint_is_missing params c = not (in_key params c.ovn)

-- `if len(missing) > 0 { response.Missing = … }`
abbrev pub listed : {A B : Type 0} → (A → B) → List A → Option (List B)
listed f [] = none
listed f (x ∷ xs) = some (map f (x ∷ xs))

module _ (ext : External) where
  -- A reference to an entity of another manager hides its OVN.
  unfoldable pub scrubbed : Manager → OperationalIntent → OperationalIntentReference
  scrubbed manager op =
      let p = operational_intent_to_rest ext op in
      if not (op.manager == manager) then record p { ovn = no_ovn_phrase } else p

  unfoldable pub scrubbed_constraint : Manager → Constraint → ConstraintReference
  scrubbed_constraint manager c =
      let p = constraint_to_rest ext c in
      if not (c.manager == manager) then record p { ovn = no_ovn_phrase } else p

  -- The constraints are looked at only for a subscription that asks for them.
  unfoldable pub missing_constraints :
      ValidOirParams → Option Subscription → Exec State (List Constraint)
  missing_constraints params none = pure []
  missing_constraints params (some sub) =
      if sub.notify_for_constraints
      then (do
        found ← search_constraints ext params.volume
        pure (filter (constraint_is_missing params) found))
      else pure []

  -- The conflict to report, if anything is missing.
  unfoldable pub conflict :
      Manager → List OperationalIntent → List Constraint → Option AirspaceConflict
  conflict manager [] [] = none
  conflict manager ops constraints = some (record {
    missing_operational_intents = listed (scrubbed manager) ops;
    missing_constraints = listed (scrubbed_constraint manager) constraints;
  })

  unfoldable pub validate_key_and_provide_conflict_response :
      Manager → ValidOirParams → Option Subscription → Exec State (Option AirspaceConflict)
  unfolding missing_constraints conflict
  validate_key_and_provide_conflict_response manager params attached = do
    relevant ← search_operational_intents ext params.volume
    let missing_ops = filter (is_missing params) relevant
    missing ← missing_constraints params attached
    pure (conflict manager missing_ops missing)
