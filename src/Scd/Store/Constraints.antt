-- ===== src/Scd/Store/Constraints.antt =====
-- constraints.go
pub mod Search
use dss.Prelude.{
  ℕ, String, Bool, false, Option, none, some, List, [], ◌∷◌, map, not, length, if◌then◌else◌,
}
use dss.GoMap
use dss.Exec.{Result, ok, err, err_not_found, Exec, deref, bind_result, collect_result}
use dss.External.{External, Time, CellUnion}
use dss.Models.{CellsVolume4D, max_result_limit, validate_cell}
use dss.Scd.Models.{EntityId, Constraint, new_ovn_from_time}
use dss.Scd.Store.Records.{
  State, ConstraintRecord, cell_set, overlaps, overlaps_time, require_extent_times,
}

-- The filters of `SearchConstraints`.
unfoldable pub constraint_matches : CellsVolume4D → ConstraintRecord → Result Bool
constraint_matches v rec =
    if not (overlaps rec.volume.cells (cell_set v.cells))
    then ok false
    else bind_result (deref rec.volume.start_time)
        (λ start. bind_result (deref rec.volume.end_time) (λ end. ok (overlaps_time start end v)))

module _ (ext : External) where
  -- `constraintRecord.toModel`
  unfoldable pub constraint_to_model : ConstraintRecord → Constraint
  constraint_to_model rec = record {
    id = rec.id;
    manager = rec.manager;
    version = rec.version;
    ovn = new_ovn_from_time ext rec.updated_at rec.id;
    uss_base_url = rec.uss_base_url;
    volume = rec.volume;
  }

  -- `SearchConstraints`; no cell finds nothing.
  unfoldable pub search_constraints : CellsVolume4D → Exec State (List Constraint)
  search_constraints v s = elim (cell_set v.cells) [
    | [] ↦ (ok [], s)
    | _ ↦
        let found =
          collect_result (constraint_matches v) max_result_limit (GoMap.values s.constraints) [] in
        (bind_result found (λ recs. ok (map constraint_to_model recs)), s)
  ]

  -- `GetConstraint`
  unfoldable pub get_constraint : EntityId → Exec State Constraint
  get_constraint id s = elim (GoMap.get s.constraints id) [
    | none ↦ (err err_not_found, s)
    | some rec ↦ (ok (constraint_to_model rec), s)
  ]

  -- `CellUnionToCellIdsWithValidation` of pkg/sql/utils.go, of which only the error is used here.
  unfoldable pub validate_cells : CellUnion → Result (Unit {0})
  validate_cells [] = ok tt
  validate_cells (c ∷ cells) =
      let rest = validate_cells cells in bind_result (validate_cell ext c) (λ _. rest)

  -- `UpsertConstraint`
  unfoldable pub upsert_constraint : Time → Constraint → Exec State Constraint
  upsert_constraint now c s = elim (validate_cells c.cells) [
    | err e ↦ (err e, s)
    | ok _ ↦ elim (require_extent_times c.start_time c.end_time) [
      | err e ↦ (err e, s)
      | ok _ ↦
          let rec : ConstraintRecord = record {
            id = c.id;
            manager = c.manager;
            version = c.version;
            uss_base_url = c.uss_base_url;
            volume = c.volume;
            updated_at = now;
          } in
          (
            ok (constraint_to_model rec),
            record s { constraints = GoMap.set s.constraints c.id rec },
          )
    ]
  ]

-- `DeleteConstraint`
unfoldable pub delete_constraint : EntityId → Exec State (Unit {0})
delete_constraint id s = elim (GoMap.get s.constraints id) [
  | none ↦ (err err_not_found, s)
  | some rec ↦ (ok tt, record s { constraints = GoMap.delete s.constraints id })
]

-- `CountConstraints`
unfoldable pub count_constraints : Exec State ℕ
count_constraints s = (ok (length s.constraints), s)
