-- ===== src/Scd/Subscriptions/Query/Laws.antt =====
-- A query of subscriptions answers with those of the manager, in the area, that have not expired.
use mathlib.Core.List.{Memᴰ}
use dss.Prelude.{
  ◌≤◌, ◌≡◌, refl, ◌↔◌, inl, inr, Bool, true, some, List, [], ◌∷◌, map, not, ◌==◌, ◌&&◌, filter,
  take-all, length, collect-eq-take, arith, Bool-cases, mem-map, mem_of_map, mem-filter,
  mem_of_filter, eq_iff, str_eq_refl,
}
use dss.GoMap
use dss.GoMap.{mem-values_of_get, get_of_mem-values}
use dss.Exec.{ok}
use dss.External.{External, Time}
use dss.Models.{CellsVolume4D, max_result_limit, before}
use dss.Scd.Models.{EntityId, Manager}
use dss.Scd.Models.Rest.{RestSubscription, subscription_to_rest}
use dss.Scd.Store.Records.{State, SubscriptionRecord}
use dss.Scd.Store.Spec.{SharesCell, IsOrdered, overlaps_iff, overlaps_time_iff}
use dss.Scd.Store.Valid.{IsValid}
use dss.Scd.Store.Subscriptions.{subscription_to_model, in_cells_volume, search_subscriptions}
use dss.Scd.Store.OperationalIntents.{depends_on, get_dependent_operational_intents}
use dss.Scd.Subscriptions.Query.{list_own, execute_query_subscriptions}

-- A subscription of the manager that has not expired and shares a cell and an instant with the area.
pub record IsListed (v : CellsVolume4D) (now : Time) (manager : Manager) (rec : SubscriptionRecord)
    : Type 0 where
  pub cells : SharesCell rec.cells v.cells
  pub starts : IsOrdered (some rec.start_time) v.end_time
  pub ends : IsOrdered v.start_time (some rec.end_time)
  pub is_live : now ≤ rec.end_time
  pub is_own : rec.manager ≡ manager

-- The stored subscriptions that the area selects.
abbrev pub selected : CellsVolume4D → State → List SubscriptionRecord
selected v s = filter (in_cells_volume v) (GoMap.values s.subscriptions)

-- At most as many as a query returns.
abbrev pub IsWithinLimit : CellsVolume4D → State → Type 0
IsWithinLimit v s = length (selected v s) ≤ max_result_limit

-- The ids of the operational intents that have the subscription.
abbrev pub dependents : State → EntityId → List EntityId
dependents s id = map (λ rec. rec.id) (filter (depends_on id) (GoMap.values s.operational_intents))

abbrev own : Time → Manager → SubscriptionRecord → Bool
own now manager rec = not (before rec.end_time now) && rec.manager == manager

and_true : (a b : Bool) → (a && b) ≡ true → (a ≡ true) × (b ≡ true)
and_true a b h = ground arith

tests_iff :
    (v : CellsVolume4D) (now : Time) (manager : Manager) (rec : SubscriptionRecord)
    → ((in_cells_volume v rec ≡ true) × (own now manager rec ≡ true)) ↔ IsListed v now manager rec
unfolding in_cells_volume
tests_iff v now manager rec = (
  λ h.
      let (c, t) = and_true _ _ h.0 in
      let (live, same) = and_true _ _ h.1 in
      let (st, en) = (overlaps_time_iff rec.start_time rec.end_time v).0 t in
      record {
        cells = (overlaps_iff rec.cells v.cells).0 c;
        starts = st;
        ends = en;
        is_live = ground arith;
        is_own = (eq_iff rec.manager manager).0 same;
      },
  λ l.
      let live : not (before rec.end_time now) ≡ true = let small = l.is_live in ground arith in
      (
        rw (
          (overlaps_iff rec.cells v.cells).1 l.cells,
          (overlaps_time_iff rec.start_time rec.end_time v).1 (l.starts, l.ends),
        ),
        rw (live, l.is_own, str_eq_refl manager) refl,
      ),
)

module _ (ext : External) (now : Time) (manager : Manager) where
  -- What is handed out for a stored subscription.
  abbrev pub answer : State → SubscriptionRecord → RestSubscription
  answer s rec = subscription_to_rest ext (subscription_to_model ext rec) (dependents s rec.id)

  list_own_lem :
      (s : State) (recs : List SubscriptionRecord)
      → list_own ext now manager (map (subscription_to_model ext) recs) s
        ≡ (ok (map (answer s) (filter (own now manager) recs)), s)
  unfolding list_own filter subscription_to_model get_dependent_operational_intents
  list_own_lem s [] = refl
  list_own_lem s (rec ∷ recs) = elim (Bool-cases (own now manager rec)) [
    | inl e ↦ rw e (rw (list_own_lem s recs) refl)
    | inr e ↦ rw e (list_own_lem s recs)
  ]

  module _ (v : CellsVolume4D) (s : State) where
    query_lem :
        IsWithinLimit v s
        → execute_query_subscriptions ext now manager v s
          ≡ (ok (map (answer s) (filter (own now manager) (selected v s))), s)
    unfolding execute_query_subscriptions search_subscriptions
    query_lem small =
        rw
          (
            collect-eq-take (in_cells_volume v) max_result_limit (GoMap.values s.subscriptions) []
                (omega arith),
            take-all max_result_limit (selected v s) small,
          )
          (list_own_lem s (selected v s))

    -- In a valid store, a query whose area selects no more subscriptions than the limit succeeds
    -- and changes nothing. It answers with exactly the stored subscriptions of the manager that have
    -- not expired and share a cell and an instant with the area, each with the ids of the
    -- operational intents that have it.
    pub execute_query_subscriptions-Finds :
        IsValid s
        → IsWithinLimit v s
        → (out : List RestSubscription) × (execute_query_subscriptions ext now manager v s
            ≡ (ok out, s))
          × ((r : RestSubscription)
              → Memᴰ r out ↔ (
                  (id : EntityId) × (rec : SubscriptionRecord) × (GoMap.get s.subscriptions id
                    ≡ some rec)
                  × IsListed v now manager rec
                  × (r ≡ answer s rec)))
    execute_query_subscriptions-Finds valid small = (
      _,
      query_lem small,
      λ r. (
        λ m.
            let (rec, n, e) = mem_of_map _ _ m in
            let (n', mine) = mem_of_filter _ _ n in
            let (stored, near) = mem_of_filter _ _ n' in
            let (id, g) = get_of_mem-values s.subscriptions valid.distinct_subs stored in
            (id, rec, g, (tests_iff v now manager rec).0 (near, mine), e),
        λ w.
            let (near, mine) = (tests_iff v now manager w.1).1 w.3 in
            rw w.4 (
              mem-map _ _ (
                mem-filter _ _ (mem-filter _ _ (mem-values_of_get s.subscriptions w.0 w.2) near)
                  mine)),
      ),
    )
