-- ===== src/Scd/Constraints/Tests.antt =====
-- A constraint is created, and one is deleted.
use dss.Prelude.{◌≡◌, refl, any, filter}
use dss.GoMap
use dss.Exec.{ok}
use dss.Fixtures.{ext0}
use dss.Models.{validate_cell}
use dss.Models.Union.{union_cells_volumes_4d}
use dss.Scd.Models.{Constraint, new_ovn_from_time, replace_all}
use dss.Scd.Models.Rest.{constraint_to_rest, group_by_url, make_subscribers_to_notify}
use dss.Scd.Store.Records.{State, overlaps, overlaps_time, require_extent_times}
use dss.Scd.Store.Subscriptions.{
  in_cells_volume, bumped, subscription_to_model, increment_loop, increment_notification_indices,
  increment_notification_indices_for_constraints,
}
use dss.Scd.Store.Constraints.{
  constraint_to_model, get_constraint, validate_cells, upsert_constraint,
}
use dss.Scd.Store.Fixtures.{s0, volume_a}
use dss.Scd.Constraints.{
  ConstraintChange, constraint_version, find_constraint, constraint_notify_volume, put_constraint,
}
use dss.Scd.Constraints.Stored.{StoresConstraint, put_constraint-Stores}

abbrev constraint_k : Constraint
constraint_k = record {
  id = "k";
  manager = "uss3";
  version = 0;
  ovn = "";
  uss_base_url = "https://uss3";
  volume = volume_a;
}

put_k : (r : ConstraintChange) × (s' : State) × (put_constraint ext0 6 constraint_k s0 ≡ (ok r, s'))
unfolding any filter GoMap.get GoMap.set validate_cell union_cells_volumes_4d new_ovn_from_time
    replace_all constraint_to_rest group_by_url make_subscribers_to_notify overlaps overlaps_time
    require_extent_times in_cells_volume bumped subscription_to_model increment_loop
    increment_notification_indices increment_notification_indices_for_constraints
    constraint_to_model get_constraint validate_cells upsert_constraint constraint_version
    find_constraint constraint_notify_volume put_constraint
put_k = (_, _, refl)

put_constraint-Stores_example : StoresConstraint ext0 6 constraint_k s0 put_k.1
put_constraint-Stores_example = put_constraint-Stores ext0 6 constraint_k put_k.2
