-- ===== src/Models/Volume.antt =====
-- Volumes and times: pkg/models/geo.go, and the cell levels of pkg/geo/s2.go.
use dss.Prelude.{ℕ, Bool, Option, none, some, ltb, nat_eq, ◌||◌, if◌then◌else◌}
use dss.Exec.{Result, ok, err, uncoded}
use dss.External.{External, CellUnion, Time}

-- A float32 altitude, given by its rank among the finite float32 values: the program only compares
-- altitudes.
abbrev pub Altitude : Type 0
Altitude = ℕ

-- A pointer that may be nil is an `Option`.
pub record CellsVolume4D : Type 0 where
  pub cells : CellUnion
  pub start_time : Option Time
  pub end_time : Option Time
  pub altitude_lo : Option Altitude
  pub altitude_hi : Option Altitude

abbrev pub max_result_limit : ℕ
max_result_limit = 10000

abbrev pub zero_time : Time
zero_time = 0

-- `a.After(b)`
abbrev pub after : Time → Time → Bool
after a b = ltb b a

-- `a.Before(b)`
abbrev pub before : Time → Time → Bool
before a b = ltb a b

-- `timeP`
unfoldable pub time_p : Time → Option Time
time_p t = if nat_eq t zero_time then none else some t

-- `DefaultMinimumCellLevel`, which is `DefaultMaximumCellLevel` too.
abbrev pub minimum_cell_level : ℕ
minimum_cell_level = 13

abbrev maximum_cell_level : ℕ
maximum_cell_level = 13

module _ (ext : External) where
  -- `geo.Levelify`
  unfoldable pub levelify : CellUnion → CellUnion
  levelify cells = ext.denormalize cells minimum_cell_level 1

  -- `geo.ValidateCell`
  unfoldable pub validate_cell : ℕ → Result (Unit {0})
  validate_cell cell =
      if ltb (ext.level cell) minimum_cell_level || ltb maximum_cell_level (ext.level cell)
      then err uncoded
      else ok tt
