-- ===== src/Models/Union/Loop.antt =====
-- The loop of `UnionCellsVolumes4D`.
use dss.Prelude.{ℕ, Bool, true, false, Option, none, some, List, [], ◌∷◌, ◌++◌, ltb, if◌then◌else◌}
use dss.External.{External, CellUnion, Time}
use dss.Models.Volume.{CellsVolume4D, Altitude, after, before, levelify, time_p}

-- The loop's variables: the flags of `unbounded`, the bounds of `result`, and `cellUnions`.
pub record Acc : Type 0 where
  pub unbounded_end : Bool
  pub end_time : Option Time
  pub unbounded_start : Bool
  pub start_time : Option Time
  pub unbounded_lo : Bool
  pub altitude_lo : Option Altitude
  pub unbounded_hi : Bool
  pub altitude_hi : Option Altitude
  pub cell_unions : List CellUnion

abbrev pub start : Acc
start = record {
  unbounded_end = false;
  end_time = none;
  unbounded_start = false;
  start_time = none;
  unbounded_lo = false;
  altitude_lo = none;
  unbounded_hi = false;
  altitude_hi = none;
  cell_unions = [];
}

-- One of the four blocks of the loop's body, which differ in the comparison and in the copy:
-- `bound` is the volume's, `u` and `r` are the flag and the result so far.
unfoldable pub widen :
    (ℕ → ℕ → Bool) → (ℕ → Option ℕ) → Option ℕ → Bool → Option ℕ → Bool × Option ℕ
widen beats copy none u r = (true, none)
widen beats copy (some b) true r = (true, r)
widen beats copy (some b) false none = (false, copy b)
widen beats copy (some b) false (some r) = (false, if beats b r then copy b else some r)

unfoldable pub step : Acc → CellsVolume4D → Acc
step acc v =
    let (ue, e) = widen after time_p v.end_time acc.unbounded_end acc.end_time in
    let (us, s) = widen before time_p v.start_time acc.unbounded_start acc.start_time in
    let (ul, l) = widen ltb some v.altitude_lo acc.unbounded_lo acc.altitude_lo in
    let (uh, h) = widen (λ a b. ltb b a) some v.altitude_hi acc.unbounded_hi acc.altitude_hi in
    record {
      unbounded_end = ue;
      end_time = e;
      unbounded_start = us;
      start_time = s;
      unbounded_lo = ul;
      altitude_lo = l;
      unbounded_hi = uh;
      altitude_hi = h;
      cell_unions = acc.cell_unions ++ v.cells ∷ [];
    }

unfoldable pub loop : Acc → List CellsVolume4D → Acc
loop acc [] = acc
loop acc (v ∷ vs) = loop (step acc v) vs

unfoldable pub union_cells_volumes_4d : External → List CellsVolume4D → CellsVolume4D
unfolding loop
union_cells_volumes_4d ext volumes =
    let acc = loop start volumes in
    record {
      cells = levelify ext (ext.cell_union_from_union acc.cell_unions);
      start_time = acc.start_time;
      end_time = acc.end_time;
      altitude_lo = acc.altitude_lo;
      altitude_hi = acc.altitude_hi;
    }
