-- ===== src/Scd/Store/Constraints/Search.antt =====
-- `SearchConstraints` finds the stored constraints of an area, up to the limit.
use mathlib.Core.List.{Memᴰ}
use dss.Prelude.{
  ℕ, ◌≡◌, refl, sym, ap, ◌∙◌, subst, ◌≤◌, ◌↔◌, Bool, true, false, some, List, [], ◌∷◌, map, arith,
  filter, collect-eq-take, take, take-all, length, mem-map, mem-filter,
}
use mathlib.Core.List.Memᴰ
use dss.GoMap
use dss.GoMap.{GoMap, mem-values_of_get, get_of_mem-values}
use dss.Exec.{ok, err, collect_result}
use dss.Exec.Laws.{collect_result-ok}
use dss.Exec.Reads.{Reads}
use dss.External.{External}
use dss.Models.{CellsVolume4D, max_result_limit}
use dss.Scd.Models.{EntityId, Constraint}
use dss.Scd.Store.Records.{State, ConstraintRecord, overlaps, overlaps_time, cell_set}
use dss.Scd.Store.Spec.{SharesCell, IsOrdered, overlaps_iff, overlaps_time_iff}
use dss.Scd.Store.Valid.{HasTimes, IsValid}
use dss.Scd.Store.Constraints.{constraint_matches, constraint_to_model, search_constraints}

-- A constraint is looked up by its cells and times, whatever its altitudes.
pub record IsNear (v r : CellsVolume4D) : Type 0 where
  pub cells : SharesCell r.cells v.cells
  pub starts : IsOrdered r.start_time v.end_time
  pub ends : IsOrdered v.start_time r.end_time

pub matches : CellsVolume4D → ConstraintRecord → Bool
matches v rec = elim (constraint_matches v rec) [ ok b ↦ b | err e ↦ false ]

module _ (v : CellsVolume4D) (rec : ConstraintRecord) (b : HasTimes rec.volume) where
  matches-ok : constraint_matches v rec ≡ ok (matches v rec)
  unfolding constraint_matches matches
  matches-ok = ground arith

  matches_tests : (matches v rec ≡ true) ↔ (
      (overlaps rec.volume.cells (cell_set v.cells) ≡ true)
      × (overlaps_time b.start b.end v ≡ true))
  unfolding constraint_matches matches
  matches_tests = (λ h. (ground arith, ground arith), λ t. ground arith)

  matches_iff : (matches v rec ≡ true) ↔ IsNear v rec.volume
  matches_iff = (
    λ h.
        let (c, t) = matches_tests.0 h in
        let (st, en) = (overlaps_time_iff b.start b.end v).0 t in
        record {
          cells = (overlaps_iff rec.volume.cells v.cells).0 c;
          starts = rw b.start_eq st;
          ends = rw b.end_eq en;
        },
    λ i. matches_tests.1 (
      (overlaps_iff rec.volume.cells v.cells).1 i.cells,
      (overlaps_time_iff b.start b.end v).1 (rw b.start_eq at i.starts, rw b.end_eq at i.ends),
    ),
  )

abbrev found : CellsVolume4D → State → List ConstraintRecord
found v s = filter (matches v) (GoMap.values s.constraints)

-- At most as many stored constraints are near as a query returns.
abbrev pub IsWithinLimit : CellsVolume4D → State → Type 0
IsWithinLimit v s = length (found v s) ≤ max_result_limit

cons_of_mem : {a : ℕ} {xs : List ℕ} → Memᴰ a xs → (x : ℕ) × (rest : List ℕ) × (xs ≡ x ∷ rest)
cons_of_mem {xs = []} m = absurd (Memᴰ.not-nil m)
cons_of_mem {xs = x ∷ rest} m = (x, rest, refl)

module _ (ext : External) (v : CellsVolume4D) where
  pub search-Reads : Reads (search_constraints ext v)
  unfolding search_constraints
  search-Reads s = ground arith

  module _ (s : State) (valid : IsValid s) where
    times_of_stored :
        (rec : ConstraintRecord) → Memᴰ rec (GoMap.values s.constraints) → HasTimes rec.volume
    times_of_stored rec m =
        let (id, e) = get_of_mem-values s.constraints valid.distinct_constraints m in
        valid.constraint_times id rec e

    scan_lem :
        collect_result (constraint_matches v) max_result_limit (GoMap.values s.constraints) []
        ≡ ok (take max_result_limit (found v s))
    scan_lem =
        collect_result-ok (constraint_matches v) (matches v) max_result_limit _ []
          (λ rec m. matches-ok v rec (times_of_stored rec m))
        ∙ ap ok (
            collect-eq-take (matches v) max_result_limit (GoMap.values s.constraints) []
              (omega arith))

    -- A search of an area with cells.
    search_lem :
        {c : ℕ} {cells : List ℕ}
        → v.cells ≡ c ∷ cells
        → search_constraints ext v s
          ≡ (ok (map (constraint_to_model ext) (take max_result_limit (found v s))), s)
    unfolding search_constraints
    search_lem e = ground (arith, scan_lem)

    -- Below the limit, a search hands out every stored constraint that is near.
    pub search_complete :
        {out : List Constraint} {s' : State}
        → search_constraints ext v s ≡ (ok out, s')
        → IsWithinLimit v s
        → (id : EntityId) (rec : ConstraintRecord) → GoMap.get s.constraints id ≡ some rec
        → IsNear v rec.volume
        → Memᴰ (constraint_to_model ext rec) out
    search_complete h small id rec g i =
        let stored = mem-values_of_get s.constraints id g in
        let q = (matches_iff v rec (times_of_stored rec stored)).1 i in
        let (c, cells, e) = cons_of_mem i.cells.right in
        subst (Memᴰ (constraint_to_model ext rec))
          (sym (
            cc (search_lem e)
            ∙ ap (map (constraint_to_model ext)) (take-all max_result_limit (found v s) small)))
          (mem-map _ _ (mem-filter _ _ stored q))
