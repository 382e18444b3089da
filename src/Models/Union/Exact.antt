-- ===== src/Models/Union/Exact.antt =====
-- The union has no bound and no cell but those of its volumes.
use mathlib.Core.List.{Memᴰ}
use dss.Prelude.{ℕ, ◌≡◌, ◌↔◌, some, List, ◌∷◌, map, ltb, mem-map, mem_of_map, subst, sym}
use dss.External.{External, CellUnion, S2Laws, IsAtLevel}
use dss.Models.Volume.{CellsVolume4D, after, before, levelify, time_p, minimum_cell_level}
use dss.Models.Union.Loop.{start, loop, union_cells_volumes_4d}
use dss.Models.Union.Block.{run_attained}
use dss.Models.Union.Covers.{
  HaveNonzeroTimes, above, loop-end_time, loop-start_time, loop-altitude_lo, loop-altitude_hi,
  loop-cell_unions, ends_copied, starts_copied, all_copied,
}

-- Each bound of `outer`, nil included, is that of one of the volumes.
pub record TakesBounds (outer : CellsVolume4D) (vs : List CellsVolume4D) : Type 0 where
  pub end_time : (v : CellsVolume4D) × Memᴰ v vs × (outer.end_time ≡ v.end_time)
  pub start_time : (v : CellsVolume4D) × Memᴰ v vs × (outer.start_time ≡ v.start_time)
  pub altitude_lo : (v : CellsVolume4D) × Memᴰ v vs × (outer.altitude_lo ≡ v.altitude_lo)
  pub altitude_hi : (v : CellsVolume4D) × Memᴰ v vs × (outer.altitude_hi ≡ v.altitude_hi)

module _ (ext : External) where
  -- Each bound of the union of one or more volumes, nil included, is that of one of them, if no
  -- time is the zero time. So the union is unbounded only where one of its volumes is.
  pub union-TakesBounds :
      (v : CellsVolume4D) (vs : List CellsVolume4D)
      → HaveNonzeroTimes (v ∷ vs)
      → TakesBounds (union_cells_volumes_4d ext (v ∷ vs)) (v ∷ vs)
  unfolding union_cells_volumes_4d
  union-TakesBounds v vs h = record {
    end_time =
        mem_of_map (λ w. w.end_time) all
          (rw loop-end_time (run_attained after time_p v.end_time _ (ends_copied all h)));
    start_time =
        mem_of_map (λ w. w.start_time) all
          (rw loop-start_time (run_attained before time_p v.start_time _ (starts_copied all h)));
    altitude_lo =
        mem_of_map (λ w. w.altitude_lo) all
          (rw loop-altitude_lo
            (run_attained ltb some v.altitude_lo _ (all_copied (map (λ w. w.altitude_lo) all))));
    altitude_hi =
        mem_of_map (λ w. w.altitude_hi) all
          (rw loop-altitude_hi
            (run_attained above some v.altitude_hi _ (all_copied (map (λ w. w.altitude_hi) all))));
  }
    where
      all : List CellsVolume4D
      all = v ∷ vs

  -- The cells of the union of volumes at level 13 are those of its volumes: what normalising merges,
  -- `Levelify` takes apart.
  pub mem-union-cells :
      (laws : S2Laws ext) (vs : List CellsVolume4D) (c : ℕ)
      → ((v : CellsVolume4D) → Memᴰ v vs → IsAtLevel ext minimum_cell_level v.cells)
      → Memᴰ c (union_cells_volumes_4d ext vs).cells
        ↔ ((v : CellsVolume4D) × Memᴰ v vs × Memᴰ c v.cells)
  unfolding union_cells_volumes_4d levelify
  mem-union-cells laws vs c at13 = (down, up)
    where
      cell_unions : (loop start vs).cell_unions ≡ map (λ v. v.cells) vs
      cell_unions = loop-cell_unions vs start

      relevel :
          Memᴰ c (ext.denormalize (ext.cell_union_from_union (map (λ v. v.cells) vs)) 13 1)
          ↔ ((u : CellUnion) × Memᴰ u (map (λ v. v.cells) vs) × Memᴰ c u)
      relevel = laws.mem-relevel 13 c _ λ u m.
          let (v, n, e) = mem_of_map (λ w. w.cells) vs m in
          subst (IsAtLevel ext 13) (sym e) (at13 v n)

      down :
          Memᴰ c (ext.denormalize (ext.cell_union_from_union (loop start vs).cell_unions) 13 1)
          → (v : CellsVolume4D) × Memᴰ v vs × Memᴰ c v.cells
      down m =
          let (u, n, k) = relevel.0 (rw cell_unions at m) in
          let (v, r, e) = mem_of_map (λ w. w.cells) vs n in (v, r, subst (Memᴰ c) e k)

      up :
          ((v : CellsVolume4D) × Memᴰ v vs × Memᴰ c v.cells)
          → Memᴰ c (ext.denormalize (ext.cell_union_from_union (loop start vs).cell_unions) 13 1)
      up (v, m, k) = rw cell_unions (relevel.1 (v.cells, mem-map (λ w. w.cells) vs m, k))
