-- ===== src/Scd/Run/Tests.antt =====
-- A run of two requests.
use dss.Fixtures.{ext0}
use dss.Scd.Store.Records.{State, initial_state}
use dss.Scd.Store.Valid.{IsValid}
use dss.Scd.Models.{Constraint, normal}
use dss.Scd.Store.Fixtures.{volume_a}
use dss.Scd.Run.{
  set_availability, put_constraint_reference, handle, Reachable, begin, next, Reachable-IsValid,
}

abbrev constraint_k : Constraint
constraint_k = record {
  id = "k";
  manager = "uss3";
  version = 0;
  ovn = "";
  uss_base_url = "https://uss3";
  volume = volume_a;
}

abbrev s2 : State
s2 =
    handle ext0 7
      (set_availability (record { uss = "uss3"; availability = normal; old_version = "" }))
      (handle ext0 6 (put_constraint_reference constraint_k) initial_state)

two_requests : Reachable ext0 s2
two_requests =
    next (next begin 6 (put_constraint_reference constraint_k)) 7
      (set_availability (record { uss = "uss3"; availability = normal; old_version = "" }))

Reachable-IsValid_example : IsValid s2
Reachable-IsValid_example = Reachable-IsValid ext0 two_requests
