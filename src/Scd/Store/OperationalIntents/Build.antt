-- ===== src/Scd/Store/OperationalIntents/Build.antt =====
-- `buildOperationalIntents` gives each model the stored availability of its manager.
use mathlib.Core.List.{Memᴰ}
use mathlib.Core.List.Memᴰ
use dss.Prelude.{
  ◌≡◌, refl, inl, inr, Option, none, some, List, [], ◌∷◌, map, ◌==◌, eq_iff, str_eq_refl, arith,
  Bool-cases,
}
use dss.GoMap
use dss.GoMap.{GoMap, get-set}
use dss.Exec.{ok}
use dss.External.{External}
use dss.Scd.Models.{Manager, UssAvailabilityState, unknown, OperationalIntent}
use dss.Scd.Store.Records.{State, OperationalIntentRecord, AvailabilityRecord}
use dss.Scd.Store.Availability.{availability_or_default}
use dss.Scd.Store.OperationalIntents.Defs.{
  operational_intent_to_model, init_availabilities, fill_availabilities, availability_of,
  build_operational_intents,
}

-- The availability on record, unknown by default.
abbrev pub availability_or : UssAvailabilityState → Option AvailabilityRecord → UssAvailabilityState
availability_or a none = a
availability_or a (some rec) = rec.availability

abbrev pub stored_availability : State → Manager → UssAvailabilityState
stored_availability s manager = availability_or unknown (GoMap.get s.availabilities manager)

-- The model of a record, with its manager's availability.
abbrev pub attach : External → State → OperationalIntentRecord → OperationalIntent
attach ext s rec = record (operational_intent_to_model ext rec) {
  uss_availability = stored_availability s rec.manager;
}

module _ (ext : External) (s : State) where
  filled : GoMap UssAvailabilityState → GoMap UssAvailabilityState
  filled [] = []
  filled ((k, a) ∷ m) = (k, availability_or a (GoMap.get s.availabilities k)) ∷ filled m

  pub availability_or_default_lem :
      (k : Manager) (a : UssAvailabilityState)
      → availability_or_default ext k a s
        ≡ (ok (availability_or a (GoMap.get s.availabilities k)), s)
  unfolding availability_or_default
  availability_or_default_lem k a = ground arith

  fill-filled : (m : GoMap UssAvailabilityState) → fill_availabilities ext m s ≡ (ok (filled m), s)
  unfolding fill_availabilities filled
  fill-filled [] = refl
  fill-filled ((k, a) ∷ m) = rw availability_or_default_lem (rw (fill-filled m))

  abbrev with_default : Manager → Option UssAvailabilityState → Option UssAvailabilityState
  with_default k none = none
  with_default k (some a) = some (availability_or a (GoMap.get s.availabilities k))

  get-filled :
      (m : GoMap UssAvailabilityState) (k : Manager)
      → GoMap.get (filled m) k ≡ with_default k (GoMap.get m k)
  unfolding filled GoMap.get
  get-filled [] k = refl
  get-filled ((j, a) ∷ m) k = elim (Bool-cases (j == k)) [
    | inl q ↦ rw (q, (eq_iff j k).0 q)
    | inr q ↦ rw q (get-filled m k)
  ]

  -- Once in the map, a manager stays there as unknown.
  init_keeps :
      (recs : List OperationalIntentRecord) (m : GoMap UssAvailabilityState) (k : Manager)
      → GoMap.get m k ≡ some unknown
      → GoMap.get (init_availabilities recs m) k ≡ some unknown
  unfolding init_availabilities
  init_keeps [] m k h = h
  init_keeps (rec ∷ recs) m k h =
      init_keeps recs (GoMap.set m rec.manager unknown) k
        (ground (arith, get-set m rec.manager k unknown, h))

  init_has :
      (recs : List OperationalIntentRecord) (m : GoMap UssAvailabilityState)
      {rec : OperationalIntentRecord}
      → Memᴰ rec recs
      → GoMap.get (init_availabilities recs m) rec.manager ≡ some unknown
  unfolding init_availabilities
  init_has [] m h = absurd (Memᴰ.not-nil h)
  init_has (x ∷ recs) m {rec} h = elim (Memᴰ.cases_cons h) [
    | inl e ↦
        init_keeps recs (GoMap.set m x.manager unknown) rec.manager (rw (get-set, e, str_eq_refl))
    | inr n ↦ init_has recs (GoMap.set m x.manager unknown) n
  ]

  availability_of_known :
      (m : GoMap UssAvailabilityState) (k : Manager)
      → GoMap.get m k ≡ some unknown
      → availability_of (filled m) k ≡ stored_availability s k
  unfolding availability_of
  availability_of_known m k h = ground (arith, get-filled m k)

  attach_all :
      (all recs : List OperationalIntentRecord)
      → ((rec : OperationalIntentRecord) → Memᴰ rec recs → Memᴰ rec all)
      → map
          (λ rec. record (operational_intent_to_model ext rec) {
            uss_availability = availability_of (filled (init_availabilities all [])) rec.manager;
          })
          recs
        ≡ map (attach ext s) recs
  attach_all all [] sub = refl
  attach_all all (rec ∷ recs) sub = rw (
    availability_of_known (init_availabilities all []) rec.manager
        (init_has all [] (sub rec (Memᴰ.head refl))),
    attach_all all recs (λ r m. sub r (Memᴰ.tail m)),
  )

  pub build_lem :
      (recs : List OperationalIntentRecord)
      → build_operational_intents ext recs s ≡ (ok (map (attach ext s) recs), s)
  unfolding build_operational_intents
  build_lem recs = rw (fill-filled, attach_all recs recs (λ r m. m))
