-- ===== src/Scd/Oir/Query/Tests.antt =====
-- A query by another manager finds the operational intent `b`.
use dss.Prelude.{◌≡◌, refl, List, any, filter, collect}
use dss.GoMap
use dss.Exec.{ok, collect_result}
use dss.Fixtures.{ext0}
use dss.Scd.Models.{new_ovn_from_time, replace_all}
use dss.Scd.Models.Rest.{OperationalIntentReference, operational_intent_to_rest}
use dss.Scd.Store.Records.{State, overlaps, overlaps_time}
use dss.Scd.Store.Availability.{
  availability_to_model, get_uss_availability, availability_or_default,
}
use dss.Scd.Store.OperationalIntents.{
  too_low, too_high, oi_matches, no_cells, init_availabilities, availability_of,
  operational_intent_to_model, fill_availabilities, build_operational_intents,
  search_operational_intents,
}
use dss.Scd.Store.Fixtures.{volume_a, s0, s0-IsValid, small}
use dss.Scd.Oir.Key.{scrubbed}
use dss.Scd.Oir.Query.{query_operational_intent_references}
use dss.Scd.Oir.Query.Laws.{Answers, query_operational_intent_references-Answers}

query_a :
    (out : List OperationalIntentReference) × (s' : State) × (query_operational_intent_references
        ext0 "uss1" volume_a s0
      ≡ (ok out, s'))
unfolding any filter collect GoMap.get GoMap.set collect_result new_ovn_from_time replace_all
    operational_intent_to_rest overlaps overlaps_time availability_to_model get_uss_availability
    availability_or_default too_low too_high oi_matches no_cells init_availabilities availability_of
    operational_intent_to_model fill_availabilities build_operational_intents
    search_operational_intents scrubbed query_operational_intent_references
query_a = (_, _, refl)

query_operational_intent_references-Answers_example :
    Answers ext0 "uss1" volume_a s0 query_a.0 × (query_a.1 ≡ s0)
query_operational_intent_references-Answers_example =
    query_operational_intent_references-Answers ext0 "uss1" volume_a s0-IsValid small query_a.2
