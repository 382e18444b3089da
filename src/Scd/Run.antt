-- ===== src/Scd/Run.antt =====
-- Runs of the strategic conflict detection service: the writing operations of the registry. An
-- operation that fails leaves what it wrote before, or, where the store restores its checkpoint
-- (`processCommits` of pkg/raftstore/store.go), the state before it, as if it had not been in the run.
mod Tests
use dss.Prelude.{◌≡◌, refl, inl, inr, Option, none, some, arith, Option-cases}
use dss.GoMap
use dss.GoMap.{set-AllEntries, set-HasDistinctKeys}
use dss.Exec.{Exec, pure, lift}
use dss.Exec.Keeps.{Keeps, >>=-Keeps, Reads-Keeps}
use dss.External.{External, Time}
use dss.Scd.Models.{Manager, Subscription, Constraint, UssAvailabilityStatus}
use dss.Scd.Store.Records.{State, AvailabilityRecord, initial_state}
use dss.Scd.Store.Valid.{IsValid}
use dss.Scd.Store.Availability.{get_uss_availability, upsert_uss_availability}
use dss.Scd.Oir.Params.{ValidOirParams}
use dss.Scd.Oir.Delete.{DeleteOirPayload, delete_operational_intent_reference}
use dss.Scd.Oir.Put.{put_operational_intent_reference}
use dss.Scd.Oir.Keeps.{delete-IsValid, put-IsValid}
use dss.Scd.Constraints.{DeleteConstraintPayload, put_constraint, delete_constraint_reference}
use dss.Scd.Constraints.Laws.{put_constraint-IsValid, delete_constraint-IsValid}
use dss.Scd.Subscriptions.{DeleteSubscriptionPayload, execute_delete_subscription}
use dss.Scd.Subscriptions.Laws.{execute_delete_subscription-IsValid}
use dss.Scd.Subscriptions.Put.{execute_put_subscription}
use dss.Scd.Subscriptions.Put.Laws.{execute_put_subscription-IsValid}
use dss.Scd.Availability.{
  SetUssAvailabilityPayload, find_uss_availability, check_availability_version,
  set_uss_availability,
}

-- The payloads that the registry knows, of the operations that write.
pub data Request : Type 0 where
  put_oir : Manager → ValidOirParams → Request
  delete_oir : DeleteOirPayload → Request
  put_subscription : Subscription → Request
  delete_subscription : DeleteSubscriptionPayload → Request
  put_constraint_reference : Constraint → Request
  delete_constraint : DeleteConstraintPayload → Request
  set_availability : SetUssAvailabilityPayload → Request

module _ (ext : External) where
  -- The state after the handler of a request.
  unfoldable pub handle : Time → Request → State → State
  handle now (put_oir m params) s = (put_operational_intent_reference ext now m params s).1
  handle now (delete_oir p) s = (delete_operational_intent_reference ext p s).1
  handle now (put_subscription sub) s = (execute_put_subscription ext now sub s).1
  handle now (delete_subscription p) s = (execute_delete_subscription ext p s).1
  handle now (put_constraint_reference c) s = (put_constraint ext now c s).1
  handle now (delete_constraint p) s = (delete_constraint_reference ext p s).1
  handle now (set_availability p) s = (set_uss_availability ext now p s).1

  -- The states that requests lead to.
  pub data Reachable : State → Type 0 where
    begin : Reachable initial_state
    next : {s : State} → Reachable s → (now : Time) (r : Request) → Reachable (handle now r s)

  pub upsert_availability-Keeps :
      (now : Time) (a : UssAvailabilityStatus) → Keeps IsValid (upsert_uss_availability ext now a)
  unfolding upsert_uss_availability
  upsert_availability-Keeps now a s v = record {
    distinct_oirs = v.distinct_oirs;
    distinct_subs = v.distinct_subs;
    distinct_constraints = v.distinct_constraints;
    distinct_availabilities =
        set-HasDistinctKeys s.availabilities a.uss _ v.distinct_availabilities;
    availability_usses =
        set-AllEntries (λ uss (rec : AvailabilityRecord). rec.uss ≡ uss) s.availabilities a.uss _
          refl v.availability_usses;
    oir_ids = v.oir_ids;
    oir_bounds = v.oir_bounds;
    sub_ids = v.sub_ids;
    constraint_ids = v.constraint_ids;
    constraint_times = v.constraint_times;
  }

  find_availability-Keeps : (m : Manager) → Keeps IsValid (find_uss_availability ext m)
  unfolding find_uss_availability get_uss_availability
  find_availability-Keeps m s v = elim (Option-cases (GoMap.get s.availabilities m)) [
    | inl e ↦ rw (e, get_uss_availability) v
    | inr (rec, e) ↦ rw (e, get_uss_availability) v
  ]

  set_availability-Keeps :
      (now : Time) (p : SetUssAvailabilityPayload) → Keeps IsValid (set_uss_availability ext now p)
  unfolding set_uss_availability
  set_availability-Keeps now p =
      >>=-Keeps IsValid (find_uss_availability ext p.uss) _ (find_availability-Keeps p.uss) (λ old.
        Reads-Keeps IsValid (lift (check_availability_version p.old_version old)) _ (λ s. refl)
          (λ u.
            >>=-Keeps IsValid (upsert_uss_availability ext now _) _
              (upsert_availability-Keeps now _) (λ a s v. v)))

  pub handle-IsValid : (now : Time) (r : Request) (s : State) → IsValid s → IsValid (handle now r s)
  unfolding handle
  handle-IsValid now (put_oir m params) s v = put-IsValid ext now m params s v
  handle-IsValid now (delete_oir p) s v = delete-IsValid ext p s v
  handle-IsValid now (put_subscription sub) s v = execute_put_subscription-IsValid ext now sub s v
  handle-IsValid now (delete_subscription p) s v = execute_delete_subscription-IsValid ext p s v
  handle-IsValid now (put_constraint_reference c) s v = put_constraint-IsValid ext now c s v
  handle-IsValid now (delete_constraint p) s v = delete_constraint-IsValid ext p s v
  handle-IsValid now (set_availability p) s v = set_availability-Keeps now p s v

  initial-IsValid : IsValid initial_state
  unfolding GoMap.get
  initial-IsValid = record {
    distinct_oirs = tt;
    distinct_subs = tt;
    distinct_constraints = tt;
    distinct_availabilities = tt;
    availability_usses = λ uss rec e. absurd (ground arith);
    oir_ids = λ id rec e. absurd (ground arith);
    oir_bounds = λ id rec e. absurd (ground arith);
    sub_ids = λ id rec e. absurd (ground arith);
    constraint_ids = λ id rec e. absurd (ground arith);
    constraint_times = λ id rec e. absurd (ground arith);
  }

  -- In every state of a run, whether its operations succeed or not, each table holds a key once, each
  -- record stands under its own id, an availability under its USS, each operational intent has both
  -- times and both altitudes, and each constraint has both times.
  pub Reachable-IsValid : {s : State} → Reachable s → IsValid s
  Reachable-IsValid begin = initial-IsValid
  Reachable-IsValid (next {s} run now r) = handle-IsValid now r s (Reachable-IsValid run)
