-- ===== src/Scd/Subscriptions/Put/Tests.antt =====
-- A subscription that an operational intent has is updated, and then found; a test of a nil pointer.
use dss.Prelude.{◌≡◌, refl, true, false, none, some, [], ◌∷◌, subst, any, filter, arith}
use dss.GoMap
use dss.Exec.{ok, err, panic, collect_result}
use dss.Fixtures.{ext0}
use dss.Scd.Models.{Subscription, new_ovn_from_time, replace_all}
use dss.Scd.Models.Rest.{subscription_to_rest, operational_intent_to_rest, constraint_to_rest}
use dss.Scd.Models.TimeRange.{
  adjusted_start, requested_end, adjusted_end, with_times, adjust_time_range,
}
use dss.Scd.Store.Records.{
  State, SubscriptionRecord, OperationalIntentRecord, initial_state, overlaps, overlaps_time,
}
use dss.Scd.Store.Valid.{IsValid, HasBounds}
use dss.Scd.Store.Fixtures.{rec_b, rec_b-HasBounds, one}
use dss.Scd.Store.Availability.{availability_or_default}
use dss.Scd.Store.Subscriptions.{subscription_to_model, get_subscription, upsert_subscription}
use dss.Scd.Store.OperationalIntents.{
  too_low, too_high, oi_matches, no_cells, depends_on, init_availabilities, fill_availabilities,
  availability_of, operational_intent_to_model, build_operational_intents, get_operational_intent,
  search_operational_intents, get_dependent_operational_intents,
}
use dss.Scd.Store.Constraints.{constraint_matches, search_constraints}
use dss.Scd.Oir.Key.{scrubbed, scrubbed_constraint}
use dss.Scd.Subscriptions.Put.{
  PutSubscriptionResponse, check_requested, covers_altitudes, covers_times, get_operations,
  validate_dependent_op, validate_dependent_ops, check_put, operational_intent_references,
  constraint_references, put_response, execute_put_subscription,
}
use dss.Scd.Subscriptions.Put.Laws.{IsPut, execute_put_subscription-IsPut}

abbrev sub_j : SubscriptionRecord
sub_j = record {
  id = "j";
  manager = "uss2";
  notification_index = 3;
  uss_base_url = "https://uss2";
  notify_for_operational_intents = true;
  notify_for_constraints = false;
  implicit_subscription = false;
  start_time = 10;
  end_time = 20;
  cells = 1 ∷ 2 ∷ [];
  updated_at = 1;
}

-- The operational intent `b` has the subscription `j`.
abbrev rec_bj : OperationalIntentRecord
rec_bj = record rec_b { subscription_id = some "j" }

abbrev s4 : State
s4 = record initial_state {
  operational_intents = ("b", rec_bj) ∷ [];
  subscriptions = ("j", sub_j) ∷ [];
}

s4-IsValid : IsValid s4
unfolding GoMap.get
s4-IsValid = record {
  distinct_oirs = (refl, tt);
  distinct_subs = (refl, tt);
  distinct_constraints = tt;
  distinct_availabilities = tt;
  availability_usses = λ m rec e. absurd (ground arith);
  oir_ids = λ id rec e. let (k, r) = one "b" id rec_bj rec e in subst (λ x. x.id ≡ id) r k;
  oir_bounds = λ id rec e.
      let (k, r) = one "b" id rec_bj rec e in subst (λ x. HasBounds x.volume) r rec_b-HasBounds;
  sub_ids = λ id rec e. let (k, r) = one "j" id sub_j rec e in subst (λ x. x.id ≡ id) r k;
  constraint_ids = λ id rec e. cc;
  constraint_times = λ id rec e. absurd (ground arith);
}

-- An update of `j` that leaves out the times.
abbrev request_j : Subscription
request_j = record {
  id = "j";
  version = "jT";
  notification_index = 0;
  manager = "uss2";
  uss_base_url = "https://uss2/new";
  notify_for_operational_intents = true;
  notify_for_constraints = true;
  implicit_subscription = false;
  volume = record {
    cells = 1 ∷ 2 ∷ 3 ∷ [];
    start_time = none;
    end_time = none;
    altitude_lo = some 0;
    altitude_hi = some 200;
  };
}

put_j :
    (r : PutSubscriptionResponse) × (s' : State) × (execute_put_subscription ext0 6 request_j s4
      ≡ (ok r, s'))
unfolding any filter GoMap.get GoMap.set collect_result new_ovn_from_time replace_all
    subscription_to_rest operational_intent_to_rest constraint_to_rest adjusted_start requested_end
    adjusted_end with_times adjust_time_range overlaps overlaps_time availability_or_default
    subscription_to_model get_subscription upsert_subscription too_low too_high oi_matches no_cells
    depends_on init_availabilities fill_availabilities availability_of operational_intent_to_model
    build_operational_intents get_operational_intent search_operational_intents
    get_dependent_operational_intents constraint_matches search_constraints scrubbed
    scrubbed_constraint check_requested covers_altitudes covers_times get_operations
    validate_dependent_op validate_dependent_ops check_put operational_intent_references
    constraint_references put_response execute_put_subscription
put_j = (_, _, refl)

execute_put_subscription-IsPut_example : IsPut ext0 6 request_j s4 put_j.1 put_j.0
execute_put_subscription-IsPut_example =
    execute_put_subscription-IsPut ext0 6 request_j s4-IsValid put_j.2

-- An update without altitudes, of a subscription that an operational intent has, panics.
without_altitudes :
    (execute_put_subscription ext0 6
      (record request_j {
        volume = record request_j.volume { altitude_lo = none; altitude_hi = none };
      })
      s4).0
    ≡ err panic
unfolding any filter GoMap.get GoMap.set new_ovn_from_time replace_all adjusted_start requested_end
    adjusted_end with_times adjust_time_range availability_or_default subscription_to_model
    get_subscription depends_on init_availabilities fill_availabilities availability_of
    operational_intent_to_model build_operational_intents get_operational_intent
    get_dependent_operational_intents check_requested covers_altitudes covers_times get_operations
    validate_dependent_op validate_dependent_ops check_put execute_put_subscription
without_altitudes = refl
