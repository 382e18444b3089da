-- ===== src/Scd/Subscriptions/Tests.antt =====
-- A subscription that no operational intent has is read and deleted.
use dss.Prelude.{◌≡◌, refl, true, false, [], ◌∷◌, arith, subst, filter}
use dss.GoMap
use dss.Exec.{ok}
use dss.Fixtures.{ext0}
use dss.Scd.Models.{new_ovn_from_time, replace_all}
use dss.Scd.Models.Rest.{RestSubscription, subscription_to_rest}
use dss.Scd.Store.Records.{State, SubscriptionRecord}
use dss.Scd.Store.Valid.{IsValid, IsAttached}
use dss.Scd.Store.Fixtures.{s0, rec_b, one, s0-IsValid}
use dss.Scd.Store.Subscriptions.{subscription_to_model, get_subscription, delete_subscription}
use dss.Scd.Store.OperationalIntents.{depends_on, get_dependent_operational_intents}
use dss.Scd.Subscriptions.{
  DeleteSubscriptionPayload, has_dependents, check_delete_subscription, delete_unused_subscription,
  execute_delete_subscription, execute_get_subscription,
}
use dss.Scd.Subscriptions.Laws.{
  IsUnused, IsRemoved, execute_delete_subscription-IsRemoved,
  execute_delete_subscription-IsAttached,
}
use dss.Scd.Subscriptions.Complete.{execute_delete_subscription_complete}

abbrev sub_j : SubscriptionRecord
sub_j = record {
  id = "j";
  manager = "uss1";
  notification_index = 3;
  uss_base_url = "https://uss1";
  notify_for_operational_intents = true;
  notify_for_constraints = false;
  implicit_subscription = false;
  start_time = 10;
  end_time = 20;
  cells = 1 ∷ 2 ∷ [];
  updated_at = 1;
}

-- The operational intent `b`, without a subscription, and the subscription `j`.
abbrev s3 : State
s3 = record s0 { subscriptions = ("j", sub_j) ∷ [] }

s3-IsValid : IsValid s3
unfolding GoMap.get
s3-IsValid = record {
  distinct_oirs = s0-IsValid.distinct_oirs;
  distinct_subs = (refl, tt);
  distinct_constraints = s0-IsValid.distinct_constraints;
  distinct_availabilities = s0-IsValid.distinct_availabilities;
  availability_usses = s0-IsValid.availability_usses;
  oir_ids = s0-IsValid.oir_ids;
  oir_bounds = s0-IsValid.oir_bounds;
  constraint_ids = s0-IsValid.constraint_ids;
  constraint_times = s0-IsValid.constraint_times;
  sub_ids = λ id rec e. let (k, r) = one "j" id sub_j rec e in subst (λ x. x.id ≡ id) r k;
}

s3-IsAttached : IsAttached s3
s3-IsAttached = record {
  at = λ id rec sub e d. let (k, r) = one "b" id rec_b rec e in absurd (ground (arith, d, r));
}

abbrev payload_j : DeleteSubscriptionPayload
payload_j = record { id = "j"; manager = "uss1"; version = "jT" }

delete_j : (r : RestSubscription) × (execute_delete_subscription ext0 payload_j s3 ≡ (ok r, s0))
unfolding filter GoMap.get GoMap.delete new_ovn_from_time replace_all subscription_to_rest
    subscription_to_model get_subscription delete_subscription depends_on
    get_dependent_operational_intents has_dependents check_delete_subscription
    delete_unused_subscription execute_delete_subscription
delete_j = (_, refl)

read_j : (r : RestSubscription) × (execute_get_subscription ext0 "uss1" "j" s3 ≡ (ok r, s3))
unfolding filter GoMap.get new_ovn_from_time replace_all subscription_to_rest subscription_to_model
    get_subscription depends_on get_dependent_operational_intents execute_get_subscription
read_j = (_, refl)

execute_delete_subscription-IsRemoved_example : IsRemoved ext0 payload_j s3 s0
execute_delete_subscription-IsRemoved_example =
    execute_delete_subscription-IsRemoved ext0 payload_j delete_j.1

execute_delete_subscription-IsAttached_example : IsAttached s0
execute_delete_subscription-IsAttached_example =
    execute_delete_subscription-IsAttached ext0 payload_j s3-IsAttached delete_j.1

j-IsUnused : IsUnused s3 "j"
j-IsUnused = record {
  no_user = λ k oir g d. let (q, r) = one "b" k rec_b oir g in absurd (ground (arith, d, r));
}

execute_delete_subscription_complete_example :
    execute_delete_subscription ext0 payload_j s3
    ≡ (ok (subscription_to_rest ext0 (subscription_to_model ext0 sub_j) []), s0)
unfolding GoMap.get GoMap.delete subscription_to_model new_ovn_from_time replace_all
execute_delete_subscription_complete_example =
    execute_delete_subscription_complete ext0 payload_j s3 sub_j s3-IsValid refl refl refl
      j-IsUnused
