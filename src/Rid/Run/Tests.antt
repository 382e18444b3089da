-- ===== src/Rid/Run/Tests.antt =====
-- A run of two requests: an ISA and a subscription that shares a cell with it.
use dss.Prelude.{◌+◌, arith}
use dss.Fixtures.{ext0}
use dss.Rid.Store.Records.{State, initial_state}
use dss.Rid.Store.Fixtures.{noon, isa_f, sub_g}
use dss.Rid.Store.Keeps.{IsValid}
use dss.Rid.Store.Quota.{IsWithinQuota}
use dss.Rid.Run.{
  insert_isa, create_subscription, handle, Run, begin, next, Run-IsValid, Run-IsWithinQuota,
}

abbrev s2 : State
s2 =
    handle ext0 (noon + 1) (create_subscription sub_g)
      (handle ext0 noon (insert_isa isa_f) initial_state)

two_requests : Run ext0 (noon + 1) s2
two_requests =
    next (next (begin noon) noon (omega arith) (insert_isa isa_f)) (noon + 1) (omega arith)
      (create_subscription sub_g)

Run-IsValid_example : IsValid ext0 s2
Run-IsValid_example = Run-IsValid ext0 two_requests

Run-IsWithinQuota_example : IsWithinQuota (noon + 1) s2
Run-IsWithinQuota_example = Run-IsWithinQuota ext0 two_requests
