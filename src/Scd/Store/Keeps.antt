-- ===== src/Scd/Store/Keeps.antt =====
-- The writes of the store keep it valid.
mod Tables
use dss.Prelude.{
  ◌≡◌, refl, sym, ap, subst, ◌∙◌, ◌⊎◌, inl, inr, Bool, true, false, Option, none, some, arith,
  Option-cases, ℕ, if◌then◌else◌,
}
use dss.GoMap
use dss.GoMap.{
  set-AllEntries, delete-AllEntries, modify_where-AllEntries, set-HasDistinctKeys,
  delete-HasDistinctKeys, modify_where-HasDistinctKeys,
}
use dss.Exec.{Error, uncoded, Result, ok, err, Exec}
use dss.Exec.Laws.{Result-cases}
use dss.Exec.Keeps.{Keeps}
use dss.External.{External, Time}
use dss.Models.{CellsVolume4D}
use dss.Scd.Models.{EntityId, OperationalIntent, Subscription, Constraint}
use dss.Scd.Store.Records.{
  State, OperationalIntentRecord, SubscriptionRecord, ConstraintRecord, require_extent_times,
}
use dss.Scd.Store.Valid.{HasBounds, HasTimes, IsValid}
use dss.Scd.Store.Subscriptions.{
  upsert_subscription, delete_subscription, increment_notification_indices, bumped,
}
use dss.Scd.Store.Subscriptions.Laws.{increment_lem}
use dss.Scd.Store.OperationalIntents.{
  upsert_operational_intent, delete_operational_intent, record_of,
}
use dss.Scd.Store.OperationalIntents.Laws.{with_oi, upsert_bounded, upsert-cases}
use dss.Scd.Store.Keeps.Tables.{
  with_oi-IsValid, without_oi-IsValid, with_sub-IsValid, without_sub-IsValid, bumped-IsValid,
  with_constraint-IsValid, without_constraint-IsValid,
}
use dss.Scd.Store.Constraints.{validate_cells, upsert_constraint, delete_constraint}

pub delete_operational_intent-Keeps : (id : EntityId) → Keeps IsValid (delete_operational_intent id)
unfolding delete_operational_intent
delete_operational_intent-Keeps id s valid =
    elim (Option-cases (GoMap.get s.operational_intents id)) [
      | inl e ↦ rw (e, delete_operational_intent) valid
      | inr (rec, e) ↦ rw (e, delete_operational_intent) (without_oi-IsValid s valid id)
    ]

pub delete_subscription-Keeps : (id : EntityId) → Keeps IsValid (delete_subscription id)
unfolding delete_subscription
delete_subscription-Keeps id s valid = elim (Option-cases (GoMap.get s.subscriptions id)) [
  | inl e ↦ rw (e, delete_subscription) valid
  | inr (rec, e) ↦ rw (e, delete_subscription) (without_sub-IsValid s valid id)
]

pub delete_constraint-Keeps : (id : EntityId) → Keeps IsValid (delete_constraint id)
unfolding delete_constraint
delete_constraint-Keeps id s valid = elim (Option-cases (GoMap.get s.constraints id)) [
  | inl e ↦ rw (e, delete_constraint) valid
  | inr (rec, e) ↦ rw (e, delete_constraint) (without_constraint-IsValid s valid id)
]

-- A pair of times is complete or refused.
times-cases :
    (v : CellsVolume4D)
    → HasTimes v ⊎ ((e : Error) × (require_extent_times v.start_time v.end_time ≡ err e))
unfolding require_extent_times
times-cases v = elim (Option-cases v.start_time) [
  | inl e ↦ inr (uncoded, rw (e, require_extent_times) refl)
  | inr (a, e) ↦ elim (Option-cases v.end_time) [
    | inl f ↦ inr (uncoded, rw (e, f, require_extent_times) refl)
    | inr (b, f) ↦ inl (record { start = a; end = b; start_eq = e; end_eq = f })
  ]
]

module _ (ext : External) where
  pub increment-Keeps :
      (v : CellsVolume4D) (p : SubscriptionRecord → Bool)
      → Keeps IsValid (increment_notification_indices ext v p)
  increment-Keeps v p s valid = rw increment_lem (bumped-IsValid s valid _)

  module _ (now : Time) where
    pub upsert_operational_intent-Keeps :
        (o : OperationalIntent) → Keeps IsValid (upsert_operational_intent ext now o)
    unfolding record_of
    upsert_operational_intent-Keeps o s valid = elim (upsert-cases ext now s o) [
      | inl b ↦ rw upsert_bounded (with_oi-IsValid s valid ext o.id (record_of now o) refl b)
      | inr e ↦ subst IsValid (sym e) valid
    ]

    pub upsert_subscription-Keeps :
        (sub : Subscription) → Keeps IsValid (upsert_subscription ext now sub)
    unfolding upsert_subscription
    upsert_subscription-Keeps sub s valid = elim (Option-cases sub.start_time) [
      | inl e ↦ rw e valid
      | inr (a, e) ↦ elim (Option-cases sub.end_time) [
        | inl f ↦ rw e (rw f valid)
        | inr (b, f) ↦ rw e (rw f (with_sub-IsValid s valid sub.id _ refl))
      ]
    ]

    pub upsert_constraint-Keeps : (c : Constraint) → Keeps IsValid (upsert_constraint ext now c)
    unfolding upsert_constraint require_extent_times
    upsert_constraint-Keeps c s valid = elim (Result-cases (validate_cells ext c.cells)) [
      | inl (u, e) ↦ elim (times-cases c.volume) [
        | inl t ↦
            rw (e, upsert_constraint)
              (rw (t.start_eq, t.end_eq) (with_constraint-IsValid s valid c.id _ refl t))
        | inr (x, f) ↦ rw (e, upsert_constraint) (rw f valid)
      ]
      | inr (x, e) ↦ rw (e, upsert_constraint) valid
    ]
