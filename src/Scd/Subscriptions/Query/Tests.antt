-- ===== src/Scd/Subscriptions/Query/Tests.antt =====
-- A query finds the subscription of its manager.
use mathlib.Core.List.{Memᴰ}
use dss.Prelude.{
  ◌≡◌, ◌↔◌, refl, true, false, some, List, [], ◌∷◌, subst, arith, length-filter-le, String,
}
use dss.GoMap
use dss.Exec.{ok}
use dss.Fixtures.{ext0}
use dss.Scd.Models.Rest.{RestSubscription}
use dss.Scd.Store.Records.{State, SubscriptionRecord}
use dss.Scd.Store.Valid.{IsValid}
use dss.Scd.Store.Fixtures.{s0, s0-IsValid, volume_a, one}
use dss.Scd.Store.Subscriptions.{in_cells_volume}
use dss.Scd.Subscriptions.Query.{execute_query_subscriptions}
use dss.Scd.Subscriptions.Query.Laws.{
  IsListed, IsWithinLimit, answer, execute_query_subscriptions-Finds,
}

abbrev sub_q : SubscriptionRecord
sub_q = record {
  id = "q";
  manager = "uss1";
  notification_index = 0;
  uss_base_url = "https://uss1";
  notify_for_operational_intents = true;
  notify_for_constraints = false;
  implicit_subscription = false;
  start_time = 10;
  end_time = 20;
  cells = 1 ∷ 2 ∷ [];
  updated_at = 1;
}

abbrev s5 : State
s5 = record s0 { subscriptions = ("q", sub_q) ∷ [] }

s5-IsValid : IsValid s5
unfolding GoMap.get
s5-IsValid = record {
  distinct_oirs = s0-IsValid.distinct_oirs;
  distinct_subs = (refl, tt);
  distinct_constraints = s0-IsValid.distinct_constraints;
  distinct_availabilities = s0-IsValid.distinct_availabilities;
  availability_usses = s0-IsValid.availability_usses;
  oir_ids = s0-IsValid.oir_ids;
  oir_bounds = s0-IsValid.oir_bounds;
  constraint_ids = s0-IsValid.constraint_ids;
  constraint_times = s0-IsValid.constraint_times;
  sub_ids = λ id rec e. let (k, r) = one "q" id sub_q rec e in subst (λ x. x.id ≡ id) r k;
}

few : IsWithinLimit volume_a s5
few = omega (arith, length-filter-le (in_cells_volume volume_a) (sub_q ∷ []))

execute_query_subscriptions-Finds_example :
    (out : List RestSubscription) × (execute_query_subscriptions ext0 18 "uss1" volume_a s5
      ≡ (ok out, s5))
    × ((r : RestSubscription)
        → Memᴰ r out ↔ (
            (id : String) × (rec : SubscriptionRecord) × (GoMap.get s5.subscriptions id ≡ some rec)
            × IsListed volume_a 18 "uss1" rec
            × (r ≡ answer ext0 18 "uss1" s5 rec)))
execute_query_subscriptions-Finds_example =
    execute_query_subscriptions-Finds ext0 18 "uss1" volume_a s5 s5-IsValid few
