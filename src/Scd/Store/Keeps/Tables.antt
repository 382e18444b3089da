-- ===== src/Scd/Store/Keeps/Tables.antt =====
-- The valid states are closed under the changes that the writes make to the tables.
use dss.Prelude.{◌≡◌, Bool}
use dss.GoMap
use dss.GoMap.{
  set-AllEntries, delete-AllEntries, modify_where-AllEntries, set-HasDistinctKeys,
  delete-HasDistinctKeys, modify_where-HasDistinctKeys,
}
use dss.External.{External}
use dss.Scd.Models.{EntityId}
use dss.Scd.Store.Records.{State, OperationalIntentRecord, SubscriptionRecord, ConstraintRecord}
use dss.Scd.Store.Valid.{HasBounds, HasTimes, IsValid}
use dss.Scd.Store.Subscriptions.{bumped}
use dss.Scd.Store.OperationalIntents.Laws.{with_oi}

module _ (s : State) (valid : IsValid s) where
  pub with_oi-IsValid :
      (ext : External) (id : EntityId) (rec : OperationalIntentRecord)
      → rec.id ≡ id
      → HasBounds rec.volume
      → IsValid (with_oi ext s id rec)
  with_oi-IsValid ext id rec e b = record {
    distinct_oirs = set-HasDistinctKeys s.operational_intents id rec valid.distinct_oirs;
    distinct_subs = valid.distinct_subs;
    distinct_constraints = valid.distinct_constraints;
    distinct_availabilities = valid.distinct_availabilities;
    availability_usses = valid.availability_usses;
    oir_ids =
        set-AllEntries (λ k (r : OperationalIntentRecord). r.id ≡ k) s.operational_intents id rec e
          valid.oir_ids;
    oir_bounds =
        set-AllEntries (λ k (r : OperationalIntentRecord). HasBounds r.volume) s.operational_intents
          id rec b valid.oir_bounds;
    sub_ids = valid.sub_ids;
    constraint_ids = valid.constraint_ids;
    constraint_times = valid.constraint_times;
  }

  pub without_oi-IsValid :
      (id : EntityId)
      → IsValid (record s { operational_intents = GoMap.delete s.operational_intents id })
  without_oi-IsValid id = record {
    distinct_oirs = delete-HasDistinctKeys s.operational_intents id valid.distinct_oirs;
    distinct_subs = valid.distinct_subs;
    distinct_constraints = valid.distinct_constraints;
    distinct_availabilities = valid.distinct_availabilities;
    availability_usses = valid.availability_usses;
    oir_ids =
        delete-AllEntries (λ k (r : OperationalIntentRecord). r.id ≡ k) s.operational_intents id
          valid.oir_ids;
    oir_bounds =
        delete-AllEntries (λ k (r : OperationalIntentRecord). HasBounds r.volume)
          s.operational_intents id valid.oir_bounds;
    sub_ids = valid.sub_ids;
    constraint_ids = valid.constraint_ids;
    constraint_times = valid.constraint_times;
  }

  pub with_sub-IsValid :
      (id : EntityId) (rec : SubscriptionRecord)
      → rec.id ≡ id
      → IsValid (record s { subscriptions = GoMap.set s.subscriptions id rec })
  with_sub-IsValid id rec e = record {
    distinct_oirs = valid.distinct_oirs;
    distinct_subs = set-HasDistinctKeys s.subscriptions id rec valid.distinct_subs;
    distinct_constraints = valid.distinct_constraints;
    distinct_availabilities = valid.distinct_availabilities;
    availability_usses = valid.availability_usses;
    oir_ids = valid.oir_ids;
    oir_bounds = valid.oir_bounds;
    sub_ids =
        set-AllEntries (λ k (r : SubscriptionRecord). r.id ≡ k) s.subscriptions id rec e
          valid.sub_ids;
    constraint_ids = valid.constraint_ids;
    constraint_times = valid.constraint_times;
  }

  pub without_sub-IsValid :
      (id : EntityId) → IsValid (record s { subscriptions = GoMap.delete s.subscriptions id })
  without_sub-IsValid id = record {
    distinct_oirs = valid.distinct_oirs;
    distinct_subs = delete-HasDistinctKeys s.subscriptions id valid.distinct_subs;
    distinct_constraints = valid.distinct_constraints;
    distinct_availabilities = valid.distinct_availabilities;
    availability_usses = valid.availability_usses;
    oir_ids = valid.oir_ids;
    oir_bounds = valid.oir_bounds;
    sub_ids =
        delete-AllEntries (λ k (r : SubscriptionRecord). r.id ≡ k) s.subscriptions id valid.sub_ids;
    constraint_ids = valid.constraint_ids;
    constraint_times = valid.constraint_times;
  }

  pub bumped-IsValid :
      (p : SubscriptionRecord → Bool)
      → IsValid (record s { subscriptions = GoMap.modify_where p bumped s.subscriptions })
  unfolding bumped
  bumped-IsValid p = record {
    distinct_oirs = valid.distinct_oirs;
    distinct_subs = modify_where-HasDistinctKeys p bumped s.subscriptions valid.distinct_subs;
    distinct_constraints = valid.distinct_constraints;
    distinct_availabilities = valid.distinct_availabilities;
    availability_usses = valid.availability_usses;
    oir_ids = valid.oir_ids;
    oir_bounds = valid.oir_bounds;
    sub_ids =
        modify_where-AllEntries (λ k (r : SubscriptionRecord). r.id ≡ k) p bumped s.subscriptions
          (λ k v e. e) valid.sub_ids;
    constraint_ids = valid.constraint_ids;
    constraint_times = valid.constraint_times;
  }

  pub with_constraint-IsValid :
      (id : EntityId) (rec : ConstraintRecord)
      → rec.id ≡ id
      → HasTimes rec.volume
      → IsValid (record s { constraints = GoMap.set s.constraints id rec })
  with_constraint-IsValid id rec e t = record {
    distinct_oirs = valid.distinct_oirs;
    distinct_subs = valid.distinct_subs;
    distinct_constraints = set-HasDistinctKeys s.constraints id rec valid.distinct_constraints;
    distinct_availabilities = valid.distinct_availabilities;
    availability_usses = valid.availability_usses;
    oir_ids = valid.oir_ids;
    oir_bounds = valid.oir_bounds;
    sub_ids = valid.sub_ids;
    constraint_ids =
        set-AllEntries (λ k (r : ConstraintRecord). r.id ≡ k) s.constraints id rec e
          valid.constraint_ids;
    constraint_times =
        set-AllEntries (λ k (r : ConstraintRecord). HasTimes r.volume) s.constraints id rec t
          valid.constraint_times;
  }

  pub without_constraint-IsValid :
      (id : EntityId) → IsValid (record s { constraints = GoMap.delete s.constraints id })
  without_constraint-IsValid id = record {
    distinct_oirs = valid.distinct_oirs;
    distinct_subs = valid.distinct_subs;
    distinct_constraints = delete-HasDistinctKeys s.constraints id valid.distinct_constraints;
    distinct_availabilities = valid.distinct_availabilities;
    availability_usses = valid.availability_usses;
    oir_ids = valid.oir_ids;
    oir_bounds = valid.oir_bounds;
    sub_ids = valid.sub_ids;
    constraint_ids =
        delete-AllEntries (λ k (r : ConstraintRecord). r.id ≡ k) s.constraints id
          valid.constraint_ids;
    constraint_times =
        delete-AllEntries (λ k (r : ConstraintRecord). HasTimes r.volume) s.constraints id
          valid.constraint_times;
  }
