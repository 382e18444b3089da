-- ===== src/External.antt =====
-- What the program takes from code that is not in the repository, as operations of one record: the
-- S2 geometry library (github.com/golang/geo/s2), SHA-256 with base64, and the RFC 3339 format of a
-- time. A statement that relies on documented behaviour of S2 takes it as `S2Laws` or
-- `ContainsUnion`.
use mathlib.Core.List.{Memᴰ}
use dss.Prelude.{ℕ, String, ◌≡◌, ◌↔◌, Bool, true, List, [], ◌∷◌}

-- A cell is its 64-bit S2 id.
abbrev pub CellUnion : Type 0
CellUnion = List ℕ

-- A time is the number of nanoseconds since Go's zero time, the first instant of year 1. Only
-- comparisons, sums and differences are used, so location and monotonic reading play no part.
abbrev pub Time : Type 0
Time = ℕ

pub record External : Type 0 where
  -- `s2.CellID.Level`
  pub level : ℕ → ℕ
  -- `s2.CellUnionFromUnion`
  pub cell_union_from_union : List CellUnion → CellUnion
  -- `s2.CellUnion.Denormalize`
  pub denormalize : CellUnion → ℕ → ℕ → CellUnion
  -- `s2.CellUnion.Contains`
  pub contains : CellUnion → CellUnion → Bool
  -- the base64 text of the SHA-256 sum of a text
  pub digest : String → String
  -- `t.Format(time.RFC3339Nano)`
  pub format : Time → String

-- Every cell of the union stands at the level `l`.
pub record IsAtLevel (ext : External) (l : ℕ) (cells : CellUnion) : Type 0 where
  pub at : (c : ℕ) → Memᴰ c cells → ext.level c ≡ l

-- Normalising a union of cells of one level and denormalising it to that level gives the cells that
-- went in.
pub record S2Laws (ext : External) : Type 0 where
  pub mem-relevel :
      (l c : ℕ) (us : List CellUnion)
      → ((u : CellUnion) → Memᴰ u us → IsAtLevel ext l u)
      → Memᴰ c (ext.denormalize (ext.cell_union_from_union us) l 1)
        ↔ ((u : CellUnion) × Memᴰ u us × Memᴰ c u)

-- The union of two cell unions contains the second.
pub record ContainsUnion (ext : External) : Type 0 where
  pub part : (a b : CellUnion) → ext.contains (ext.cell_union_from_union (a ∷ b ∷ [])) b ≡ true
