-- ===== src/Models/Union/Tests.antt =====
-- The union of two volumes.
use mathlib.Core.List.{Memᴰ}
use dss.Prelude.{refl, ◌↔◌, none, some, List, [], ◌∷◌, arith}
use dss.External.{IsAtLevel}
use dss.Fixtures.{ext0, ext0-S2Laws}
use dss.Models.Volume.{CellsVolume4D, minimum_cell_level}
use dss.Models.Union.Loop.{union_cells_volumes_4d}
use dss.Models.Union.Covers.{HaveNonzeroTimes, HoldsBounds, union-HoldsBounds}
use dss.Models.Union.Exact.{TakesBounds, union-TakesBounds, mem-union-cells}

abbrev first : CellsVolume4D
first = record {
  cells = 1 ∷ 2 ∷ [];
  start_time = some 10;
  end_time = none;
  altitude_lo = some 0;
  altitude_hi = some 100;
}

abbrev second : CellsVolume4D
second = record {
  cells = 2 ∷ 3 ∷ [];
  start_time = some 5;
  end_time = some 20;
  altitude_lo = some 50;
  altitude_hi = some 120;
}

abbrev both : List CellsVolume4D
both = first ∷ second ∷ []

nonzero : HaveNonzeroTimes both
nonzero = (omega arith, tt, (omega arith, omega arith, tt))

union-HoldsBounds_example : HoldsBounds (union_cells_volumes_4d ext0 both) second
union-HoldsBounds_example = union-HoldsBounds ext0 both second nonzero (Memᴰ.tail (Memᴰ.head refl))

union-TakesBounds_example : TakesBounds (union_cells_volumes_4d ext0 both) both
union-TakesBounds_example = union-TakesBounds ext0 first (second ∷ []) nonzero

at13 : (v : CellsVolume4D) → IsAtLevel ext0 minimum_cell_level v.cells
at13 v = record { at = λ c m. refl }

mem-union-cells_example :
    Memᴰ 3 (union_cells_volumes_4d ext0 both).cells
    ↔ ((v : CellsVolume4D) × Memᴰ v both × Memᴰ 3 v.cells)
mem-union-cells_example = mem-union-cells ext0 ext0-S2Laws both 3 (λ v m. at13 v)
