-- ===== src/Scd/Store/OperationalIntents/Defs.antt =====
-- The operations on operational intents.
use dss.Prelude.{
  ℕ, Bool, true, false, Option, none, some, List, [], ◌∷◌, map, not, ◌==◌, ltb, filter, length,
  if◌then◌else◌,
}
use dss.GoMap
use dss.GoMap.{GoMap}
use dss.Exec.{
  Result, ok, err, coded, bad_request, not_implemented, uncoded, panic, Exec, pure, raise, lift,
  raise_if, deref, bind_result, collect_result, ◌>>=◌, ◌>>◌,
}
use dss.External.{External, Time, CellUnion}
use dss.Models.{CellsVolume4D, Altitude, max_result_limit, after}
use dss.Scd.Models.{
  EntityId, Manager, UssAvailabilityState, unknown, OperationalIntent, new_ovn_from_time,
}
use dss.Scd.Store.Records.{
  State, OperationalIntentRecord, cell_set, overlaps, overlaps_time, require_extent_times,
}
use dss.Scd.Store.Availability.{availability_or_default}

-- The filters of `SearchOperationalIntents`, which read the record's bounds where they need them.
unfoldable pub too_low : Option Altitude → Option Altitude → Result Bool
too_low none hi = ok false
too_low (some lo) hi = bind_result (deref hi) (λ h. ok (ltb h lo))

unfoldable pub too_high : Option Altitude → Option Altitude → Result Bool
too_high none lo = ok false
too_high (some hi) lo = bind_result (deref lo) (λ l. ok (ltb hi l))

unfoldable pub oi_matches : CellsVolume4D → OperationalIntentRecord → Result Bool
unfolding too_low too_high
oi_matches v rec =
    if not (overlaps rec.volume.cells (cell_set v.cells))
    then ok false
    else bind_result (too_low v.altitude_lo rec.volume.altitude_hi) (λ low.
      if low
      then ok false
      else bind_result (too_high v.altitude_hi rec.volume.altitude_lo) (λ high.
        if high
        then ok false
        else bind_result (deref rec.volume.start_time) (λ start.
          bind_result (deref rec.volume.end_time) (λ end. ok (overlaps_time start end v)))))

-- `len(cells) == 0`
unfoldable pub no_cells : CellUnion → Bool
no_cells [] = true
no_cells (c ∷ cells) = false

-- `rec.SubscriptionID != nil && *rec.SubscriptionID == subscriptionID`
unfoldable pub depends_on : EntityId → OperationalIntentRecord → Bool
depends_on id rec = elim rec.subscription_id [ none ↦ false | some sub ↦ sub == id ]

-- The first loop of `buildOperationalIntents`: every manager starts as unknown.
unfoldable pub init_availabilities :
    List OperationalIntentRecord → GoMap UssAvailabilityState → GoMap UssAvailabilityState
init_availabilities [] m = m
init_availabilities (rec ∷ recs) m = init_availabilities recs (GoMap.set m rec.manager unknown)

-- `ussAvailabilities[op.Manager]`
unfoldable pub availability_of : GoMap UssAvailabilityState → Manager → UssAvailabilityState
availability_of m manager = elim (GoMap.get m manager) [ none ↦ "" | some a ↦ a ]

-- `built[0]`, which panics on an empty slice.
first_built : List OperationalIntent → Result OperationalIntent
first_built [] = err panic
first_built (o ∷ os) = ok o

-- The record that `UpsertOperationalIntent` stores.
unfoldable pub record_of : Time → OperationalIntent → OperationalIntentRecord
record_of now o = record {
  id = o.id;
  manager = o.manager;
  version = o.version;
  state = o.state;
  uss_base_url = o.uss_base_url;
  subscription_id = o.subscription_id;
  uss_requested_ovn = if not (o.ovn == "") then o.ovn else "";
  past_ovns = o.past_ovns;
  updated_at = now;
  volume = o.volume;
}

module _ (ext : External) where
  -- `operationalIntentRecord.toModel`; `UssAvailability` is left at its zero value.
  unfoldable pub operational_intent_to_model : OperationalIntentRecord → OperationalIntent
  operational_intent_to_model rec = record {
    id = rec.id;
    manager = rec.manager;
    uss_availability = "";
    version = rec.version;
    state = rec.state;
    ovn =
        if not (rec.uss_requested_ovn == "")
        then rec.uss_requested_ovn
        else new_ovn_from_time ext rec.updated_at rec.id;
    past_ovns = rec.past_ovns;
    uss_base_url = rec.uss_base_url;
    subscription_id = rec.subscription_id;
    volume = rec.volume;
  }

  -- The second loop, over the managers of the map; each round writes at the manager that it visits.
  unfoldable pub fill_availabilities :
      GoMap UssAvailabilityState → Exec State (GoMap UssAvailabilityState)
  fill_availabilities [] = pure []
  fill_availabilities ((manager, a) ∷ m) = do
    found ← availability_or_default ext manager a
    rest ← fill_availabilities m
    pure ((manager, found) ∷ rest)

  -- `buildOperationalIntents`
  unfoldable pub build_operational_intents :
      List OperationalIntentRecord → Exec State (List OperationalIntent)
  unfolding init_availabilities fill_availabilities availability_of
  build_operational_intents recs = do
    m ← fill_availabilities (init_availabilities recs [])
    pure (
        map
          (λ rec. record (operational_intent_to_model rec) {
            uss_availability = availability_of m rec.manager;
          })
          recs)

  -- `GetOperationalIntent`
  unfoldable pub get_operational_intent : EntityId → Exec State (Option OperationalIntent)
  unfolding first_built
  get_operational_intent id s = elim (GoMap.get s.operational_intents id) [
    | none ↦ (ok none, s)
    | some rec ↦
        (do
          built ← build_operational_intents (rec ∷ [])
          o ← lift (first_built built)
          pure (some o))
          s
  ]

  -- `UpsertOperationalIntent`
  unfoldable pub upsert_operational_intent : Time → OperationalIntent → Exec State OperationalIntent
  unfolding first_built record_of
  upsert_operational_intent now o s = elim (require_extent_times o.start_time o.end_time) [
    | err e ↦ (err e, s)
    | ok _ ↦ elim o.altitude_lo [
      | none ↦ (err uncoded, s)
      | some lo ↦ elim o.altitude_hi [
        | none ↦ (err uncoded, s)
        | some hi ↦
            let rec = record_of now o in
            (do built ← build_operational_intents (rec ∷ []); lift (first_built built))
              (record s { operational_intents = GoMap.set s.operational_intents o.id rec })
      ]
    ]
  ]

  -- `SearchOperationalIntents`
  unfoldable pub search_operational_intents : CellsVolume4D → Exec State (List OperationalIntent)
  search_operational_intents v = do
    raise_if (no_cells v.cells) (coded bad_request)
    matched ← λ s.
        (collect_result (oi_matches v) max_result_limit (GoMap.values s.operational_intents) [], s)
    build_operational_intents matched

-- `DeleteOperationalIntent`
unfoldable pub delete_operational_intent : EntityId → Exec State (Unit {0})
delete_operational_intent id s = elim (GoMap.get s.operational_intents id) [
  | none ↦ (err uncoded, s)
  | some rec ↦ (ok tt, record s { operational_intents = GoMap.delete s.operational_intents id })
]

-- `GetDependentOperationalIntents`
unfoldable pub get_dependent_operational_intents : EntityId → Exec State (List EntityId)
get_dependent_operational_intents id s =
    (ok (map (λ rec. rec.id) (filter (depends_on id) (GoMap.values s.operational_intents))), s)

-- `endTime`, read only of a record that has one.
end_of : OperationalIntentRecord → Result Time
end_of rec = deref rec.volume.end_time

-- `ListExpiredOperationalIntents`: `listExpired` with a limit that is not 0, whose test may panic.
unfoldable pub list_expired_operational_intents : Time → Exec State (List EntityId)
unfolding end_of
list_expired_operational_intents threshold s =
    let expired =
      collect_result (λ rec. bind_result (end_of rec) (λ end. ok (not (after end threshold))))
        max_result_limit (GoMap.values s.operational_intents) [] in
    (bind_result expired (λ recs. ok (map (λ rec. rec.id) recs)), s)

-- `DeleteExpiredOperationalIntents`
unfoldable pub delete_expired_operational_intents : Time → ℕ → Exec State (List EntityId)
delete_expired_operational_intents threshold limit = raise (coded not_implemented)

-- `CountOperationalIntents`
unfoldable pub count_operational_intents : Exec State ℕ
count_operational_intents s = (ok (length s.operational_intents), s)
