-- ===== src/Scd/Store/Availability.antt =====
-- availability.go
use dss.Prelude.{none, some}
use dss.GoMap
use dss.Exec.{ok, err, Exec, err_not_found}
use dss.External.{External, Time}
use dss.Scd.Models.{Manager, UssAvailabilityState, UssAvailabilityStatus, new_ovn_from_time}
use dss.Scd.Store.Records.{State, AvailabilityRecord}

module _ (ext : External) where
  -- `availabilityRecord.toModel`
  unfoldable pub availability_to_model : AvailabilityRecord → UssAvailabilityStatus
  availability_to_model rec = record {
    uss = rec.uss;
    availability = rec.availability;
    version = new_ovn_from_time ext rec.updated_at rec.uss;
  }

  -- `GetUssAvailability`
  unfoldable pub get_uss_availability : Manager → Exec State UssAvailabilityStatus
  get_uss_availability id s = elim (GoMap.get s.availabilities id) [
    | none ↦ (err err_not_found, s)
    | some rec ↦ (ok (availability_to_model rec), s)
  ]

  -- `ussa, err := r.GetUssAvailability(ctx, manager)`, where a manager that is not found leaves `a`.
  unfoldable pub availability_or_default :
      Manager → UssAvailabilityState → Exec State UssAvailabilityState
  unfolding get_uss_availability availability_to_model
  availability_or_default manager a s = elim (get_uss_availability manager s).0 [
    | ok status ↦ (ok status.availability, s)
    | err e ↦ (elim e [ err_not_found ↦ ok a | other ↦ err other ], s)
  ]

  module _ (now : Time) where
    -- `UpsertUssAvailability`
    unfoldable pub upsert_uss_availability :
        UssAvailabilityStatus → Exec State UssAvailabilityStatus
    upsert_uss_availability a s =
        let rec : AvailabilityRecord = record {
          uss = a.uss;
          availability = a.availability;
          updated_at = now;
        } in
        (
          ok (availability_to_model rec),
          record s { availabilities = GoMap.set s.availabilities a.uss rec },
        )
