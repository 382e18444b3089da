-- ===== src/Scd/Availability/Tests.antt =====
-- A USS that had reported nothing reports that it is down.
use dss.Prelude.{◌≡◌, refl, false, ◌==◌}
use dss.GoMap
use dss.Exec.{ok}
use dss.Fixtures.{ext0}
use dss.Scd.Models.{Manager, new_ovn_from_time, replace_all}
use dss.Scd.Store.Records.{State}
use dss.Scd.Store.Fixtures.{s0}
use dss.Scd.Store.Availability.{
  availability_to_model, get_uss_availability, upsert_uss_availability,
}
use dss.Scd.Store.OperationalIntents.Build.{stored_availability}
use dss.Scd.Availability.{
  SetUssAvailabilityPayload, AvailabilityResponse, availability_response,
  check_availability_version, find_uss_availability, read_uss_availability, set_uss_availability,
}
use dss.Scd.Availability.Laws.{set-read}

abbrev report : SetUssAvailabilityPayload
report = record { uss = "uss2"; availability = "Down"; old_version = "" }

reported :
    (r : AvailabilityResponse) × (s' : State) × (set_uss_availability ext0 9 report s0 ≡ (ok r, s'))
unfolding GoMap.get GoMap.set new_ovn_from_time replace_all availability_to_model
    get_uss_availability upsert_uss_availability availability_response check_availability_version
    find_uss_availability set_uss_availability
reported = (_, _, refl)

set-read_example :
    (before : AvailabilityResponse) × (read_uss_availability ext0 "uss2" s0 ≡ (ok before, s0))
    × (before.version ≡ "")
    × (reported.0.availability ≡ "Down")
    × (read_uss_availability ext0 "uss2" reported.1 ≡ (ok reported.0, reported.1))
    × (stored_availability reported.1 "uss2" ≡ "Down")
    × ((id : Manager)
        → ("uss2" == id) ≡ false
        → (read_uss_availability ext0 id reported.1).0 ≡ (read_uss_availability ext0 id s0).0)
    × (reported.1 ≡ record s0 { availabilities = reported.1.availabilities })
set-read_example = set-read ext0 9 report reported.2
