-- ===== src/Scd/Store/Spec.antt =====
-- When a stored volume is in an area, said without the code: some cell in common, and no bound of
-- the one past the opposite bound of the other.
use mathlib.Core.List.{Memᴰ}
use dss.Prelude.{
  ℕ, ◌≡◌, refl, sym, ◌≤◌, ◌↔◌, true, false, ◌&&◌, Option, none, some, arith, any_iff, nat_eq_iff,
  not, subst,
}
use dss.External.{CellUnion, Time}
use dss.Models.{CellsVolume4D, after, before}
use dss.Scd.Store.Records.{overlaps, overlaps_time, cell_set}

pub record SharesCell (a b : CellUnion) : Type 0 where
  pub cell : ℕ
  pub left : Memᴰ cell a
  pub right : Memᴰ cell b

-- Nil bounds nothing.
abbrev pub IsOrdered : Option ℕ → Option ℕ → Type 0
IsOrdered none b = Unit
IsOrdered (some a) none = Unit
IsOrdered (some a) (some b) = a ≤ b

pub record Intersects (v r : CellsVolume4D) : Type 0 where
  pub cells : SharesCell r.cells v.cells
  pub starts : IsOrdered r.start_time v.end_time
  pub ends : IsOrdered v.start_time r.end_time
  pub above : IsOrdered v.altitude_lo r.altitude_hi
  pub below : IsOrdered r.altitude_lo v.altitude_hi

pub overlaps_iff : (a b : CellUnion) → (overlaps a (cell_set b) ≡ true) ↔ SharesCell a b
unfolding overlaps
overlaps_iff a b = (
  λ h.
      let (c, m, q) = (any_iff _ a).0 h in
      let (d, n, e) = (any_iff _ b).0 q in
      record { cell = c; left = m; right = subst (λ x. Memᴰ x b) (sym ((nat_eq_iff c d).0 e)) n },
  λ s.
      (any_iff _ a).1
        (s.cell, s.left, (any_iff _ b).1 (s.cell, s.right, (nat_eq_iff s.cell s.cell).1 refl)),
)

-- The two tests of `overlapsTime`, at the bounds of the area.
time_tests :
    (start end : Time) (e s : Option Time)
    → ((not (elim e [ none ↦ false | some t ↦ after start t ])
          && not (elim s [ none ↦ false | some t ↦ before end t ]))
        ≡ true)
      ↔ (IsOrdered (some start) e × IsOrdered s (some end))
time_tests start end none none = (λ h. (tt, tt), λ h. refl)
time_tests start end none (some t) = ground arith
time_tests start end (some t) none = ground arith
time_tests start end (some t) (some u) = ground arith

pub overlaps_time_iff :
    (start end : Time) (v : CellsVolume4D)
    → (overlaps_time start end v ≡ true)
      ↔ (IsOrdered (some start) v.end_time × IsOrdered v.start_time (some end))
unfolding overlaps_time
overlaps_time_iff start end v = time_tests start end v.end_time v.start_time
