-- ===== src/Scd/Availability.antt =====
-- pkg/scd/operations/availability.go, from the validated parameters on.
pub mod Laws
mod Tests
use dss.Prelude.{Option, none, some, String, not, ◌==◌, if◌then◌else◌}
use dss.Exec.{
  Result, ok, err, coded, already_exists, version_mismatch, or_none, Exec, pure, lift, ◌>>=◌, ◌>>◌,
}
use dss.External.{External, Time}
use dss.Scd.Models.{Manager, Ovn, UssAvailabilityState, UssAvailabilityStatus, unknown}
use dss.Scd.Store.Records.{State}
use dss.Scd.Store.Availability.{get_uss_availability, upsert_uss_availability}

pub record SetUssAvailabilityPayload : Type 0 where
  pub uss : Manager
  pub availability : UssAvailabilityState
  pub old_version : Ovn

-- `UssAvailabilityStatusResponse`
pub record AvailabilityResponse : Type 0 where
  pub uss : Manager
  pub availability : UssAvailabilityState
  pub version : Ovn

-- `ToRest` and the version.
unfoldable pub availability_response : UssAvailabilityStatus → AvailabilityResponse
availability_response a = record { uss = a.uss; availability = a.availability; version = a.version }

-- The version that a request names must be that on record, or empty where there is none.
unfoldable pub check_availability_version : Ovn → Option UssAvailabilityStatus → Result (Unit {0})
check_availability_version version none =
    if not (version == "") then err (coded already_exists) else ok tt
check_availability_version version (some old) =
    if not (old.version == version) then err (coded version_mismatch) else ok tt

module _ (ext : External) where
  -- `repo.GetUssAvailability`, where the error "not found" leaves nil.
  unfoldable pub find_uss_availability : Manager → Exec State (Option UssAvailabilityStatus)
  find_uss_availability id s =
      (or_none (get_uss_availability ext id s).0, (get_uss_availability ext id s).1)

  -- `executeGetUssAvailability`; a USS that reported nothing is unknown.
  unfoldable pub read_uss_availability : Manager → Exec State AvailabilityResponse
  unfolding find_uss_availability availability_response
  read_uss_availability id = do
    found ← find_uss_availability id
    pure (elim found [
      | none ↦ record { uss = id; availability = unknown; version = "" }
      | some a ↦ availability_response a
    ])

  -- `executeSetUssAvailability`
  unfoldable pub set_uss_availability :
      Time → SetUssAvailabilityPayload → Exec State AvailabilityResponse
  unfolding find_uss_availability check_availability_version availability_response
  set_uss_availability now payload = do
    old ← find_uss_availability payload.uss
    lift (check_availability_version payload.old_version old)
    stored ←
        upsert_uss_availability ext now
          (record { uss = payload.uss; availability = payload.availability; version = "" })
    pure (availability_response stored)
