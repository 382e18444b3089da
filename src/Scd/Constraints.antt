-- ===== src/Scd/Constraints.antt =====
-- pkg/scd/operations/constraint.go, from the validated parameters on.
pub mod Laws
pub mod Stored
mod Tests
use dss.Prelude.{Option, none, some, List, [], ◌∷◌, map, not, ◌==◌, if◌then◌else◌}
use dss.Exec.{
  Result, ok, err, coded, not_found, permission_denied, version_mismatch, or_none, Exec, pure,
  raise, raise_if, lift, ◌>>=◌, ◌>>◌,
}
use dss.External.{External, Time}
use dss.Models.{CellsVolume4D}
use dss.Models.Union.{union_cells_volumes_4d}
use dss.Scd.Models.{EntityId, Manager, Ovn, VersionNumber, next_version, no_ovn_phrase, Constraint}
use dss.Scd.Models.Rest.{
  ConstraintReference, SubscriberToNotify, constraint_to_rest, make_subscribers_to_notify,
}
use dss.Scd.Store.Records.{State}
use dss.Scd.Store.Subscriptions.{increment_notification_indices_for_constraints}
use dss.Scd.Store.Constraints.{
  get_constraint, search_constraints, upsert_constraint, delete_constraint,
}
use dss.Scd.Oir.Delete.{or_raise}
use dss.Scd.Oir.Key.{scrubbed_constraint}

pub record DeleteConstraintPayload : Type 0 where
  pub id : EntityId
  pub manager : Manager
  pub ovn : Ovn

-- `ChangeConstraintReferenceResponse`
pub record ConstraintChange : Type 0 where
  pub constraint_reference : ConstraintReference
  pub subscribers : List SubscriberToNotify

-- The version to store, of a request that may be made: its OVN must be that of the stored constraint,
-- or empty where there is none.
unfoldable pub constraint_version : Constraint → Option Constraint → Result VersionNumber
constraint_version c none = if not (c.ovn == "") then err (coded version_mismatch) else ok 1
constraint_version c (some old) =
    if not (old.manager == c.manager)
    then err (coded permission_denied)
    else if not (old.ovn == c.ovn)
    then err (coded version_mismatch)
    else ok (next_version old.version)

-- The manager and the OVN of a deletion must be those of the stored constraint.
unfoldable pub check_delete_constraint :
    DeleteConstraintPayload → Constraint → Exec State (Unit {0})
check_delete_constraint payload old = do
  raise_if (not (old.manager == payload.manager)) (coded permission_denied)
  raise_if (not (old.ovn == payload.ovn)) (coded version_mismatch)

module _ (ext : External) where
  -- `repo.GetConstraint`, where the error "not found" leaves nil.
  unfoldable pub find_constraint : EntityId → Exec State (Option Constraint)
  find_constraint id s = (or_none (get_constraint ext id s).0, (get_constraint ext id s).1)

  -- `executeGetConstraint`, from the parsed id on.
  unfoldable pub get_constraint_reference : Manager → EntityId → Exec State ConstraintReference
  unfolding find_constraint
  get_constraint_reference manager id = do
    found ← find_constraint id
    c ← or_raise found (raise (coded not_found))
    pure (
        constraint_to_rest ext
          (if not (c.manager == manager) then record c { ovn = no_ovn_phrase } else c))

  -- `executeQueryConstraintReferences`, from the parsed area on.
  unfoldable pub query_constraint_references :
      Manager → CellsVolume4D → Exec State (List ConstraintReference)
  query_constraint_references manager v = do
    found ← search_constraints ext v
    pure (map (scrubbed_constraint ext manager) found)

  unfoldable pub constraint_notify_volume : Constraint → Option Constraint → CellsVolume4D
  constraint_notify_volume c none = c.volume
  constraint_notify_volume c (some old) = union_cells_volumes_4d ext (c.volume ∷ old.volume ∷ [])

  -- `executePutConstraint`
  unfoldable pub put_constraint : Time → Constraint → Exec State ConstraintChange
  unfolding find_constraint constraint_version constraint_notify_volume
  put_constraint now c = do
    old ← find_constraint c.id
    version ← lift (constraint_version c old)
    stored ← upsert_constraint ext now (record c { version = version })
    subs ← increment_notification_indices_for_constraints ext (constraint_notify_volume c old)
    pure (record {
      constraint_reference = constraint_to_rest ext stored;
      subscribers = make_subscribers_to_notify subs;
    })

  -- `executeDeleteConstraint`
  unfoldable pub delete_constraint_reference : DeleteConstraintPayload → Exec State ConstraintChange
  unfolding find_constraint check_delete_constraint
  delete_constraint_reference payload = do
    found ← find_constraint payload.id
    old ← or_raise found (raise (coded not_found))
    check_delete_constraint payload old
    delete_constraint payload.id
    subs ← increment_notification_indices_for_constraints ext old.volume
    pure (record {
      constraint_reference = constraint_to_rest ext old;
      subscribers = make_subscribers_to_notify subs;
    })
