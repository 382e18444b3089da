-- ===== src/Rid/Store/Isas/Search.antt =====
-- `SearchISAs`, at an area in which not too many ISAs are: exactly those that intersect it.
use mathlib.Core.List.{Memᴰ}
use dss.Prelude.{
  ℕ, suc, ◌≡◌, ◌≤◌, ◌↔◌, refl, sym, subst, Bool, true, false, Option, none, some, List, [], ◌∷◌,
  ◌∙◌, ◌&&◌, not, map, any_iff, nat_eq_iff, filter, collect, length, arith, mem-map, mem_of_map,
  mem-filter, mem_of_filter, collect-eq-take, take-all,
}
use dss.GoMap
use dss.GoMap.{mem-values_of_get, get_of_mem-values}
use dss.Exec.{ok}
use dss.External.{CellUnion, Time}
use dss.Models.{max_result_limit, before, after}
use dss.Rid.Models.{EntityId, Isa}
use dss.Rid.Store.Records.{State, IsaRecord, overlaps}
use dss.Rid.Store.Isas.{isa_matches, isa_to_model, search_isas}

pub record SharesCell (a b : CellUnion) : Type 0 where
  pub cell : ℕ
  pub left : Memᴰ cell a
  pub right : Memᴰ cell b

-- A nil `latest` bounds nothing.
abbrev pub StartsBy : Time → Option Time → Type 0
StartsBy start none = Unit
StartsBy start (some latest) = start ≤ latest

pub record Intersects (cells : CellUnion) (earliest : Time) (latest : Option Time) (rec : IsaRecord)
    : Type 0 where
  pub ends : earliest ≤ rec.end_time
  pub starts : StartsBy rec.start_time latest
  pub shares : SharesCell rec.cells cells

pub overlaps_iff : (a b : CellUnion) → (overlaps a b ≡ true) ↔ SharesCell a b
unfolding overlaps
overlaps_iff a b = (
  λ h.
      let (c, m, q) = (any_iff _ a).0 h in
      let (d, n, e) = (any_iff _ b).0 q in
      record { cell = c; left = m; right = subst (λ x. Memᴰ x b) (sym ((nat_eq_iff c d).0 e)) n },
  λ s.
      (any_iff _ a).1
        (s.cell, s.left, (any_iff _ b).1 (s.cell, s.right, (nat_eq_iff s.cell s.cell).1 refl)),
)

-- The tests of the times.
times_iff :
    (start end earliest : Time) (latest : Option Time)
    → ((not (before end earliest) && not (elim latest [ none ↦ false | some t ↦ after start t ]))
        ≡ true)
      ↔ ((earliest ≤ end) × StartsBy start latest)
times_iff start end earliest none = ground arith
times_iff start end earliest (some t) = ground arith

and_iff : (a b : Bool) → ((a && b) ≡ true) ↔ ((a ≡ true) × (b ≡ true))
and_iff a b = ground arith

matches_iff :
    (cells : CellUnion) (earliest : Time) (latest : Option Time) (rec : IsaRecord)
    → (isa_matches cells earliest latest rec ≡ true) ↔ Intersects cells earliest latest rec
unfolding isa_matches
matches_iff cells earliest latest rec =
    let t = times_iff rec.start_time rec.end_time earliest latest in
    let o = overlaps_iff rec.cells cells in
    (
      λ h.
          let (p, q) = (and_iff _ _).0 h in
          let (e, st) = t.0 p in record { ends = e; starts = st; shares = o.0 q },
      λ i. (and_iff _ _).1 (t.1 (i.ends, i.starts), o.1 i.shares),
    )

-- What a search at an area found.
pub record Finds (cells : CellUnion) (earliest : Time) (latest : Option Time) (s : State)
    (out : List Isa) : Type 0 where
  pub found :
      (isa : Isa)
      → Memᴰ isa out ↔ (
          (id : EntityId) × (rec : IsaRecord) × (GoMap.get s.isas id ≡ some rec)
          × Intersects cells earliest latest rec
          × (isa ≡ isa_to_model rec))

module _ (c : ℕ) (cells : CellUnion) (earliest : Time) (latest : Option Time) (s : State) where
  abbrev hits : List IsaRecord
  hits = filter (isa_matches (c ∷ cells) earliest latest) (GoMap.values s.isas)

  all_collected :
      length hits ≤ suc max_result_limit
      → collect
          (isa_matches (c ∷ cells) earliest latest)
          (suc max_result_limit)
          (GoMap.values s.isas)
          []
        ≡ hits
  all_collected few =
      collect-eq-take (isa_matches (c ∷ cells) earliest latest) (suc max_result_limit)
        (GoMap.values s.isas) [] (omega arith)
      ∙ take-all _ hits few

  -- A search of one or more cells from some time on, in a store that holds no key twice, and where not
  -- more ISAs match than the limit lets through, succeeds without a change. It returns exactly the
  -- stored ISAs that share a cell with the area, end at the earliest time or later, and start at the
  -- latest time, if any, or before.
  pub search_isas-Finds :
      GoMap.HasDistinctKeys s.isas
      → length (filter (isa_matches (c ∷ cells) earliest latest) (GoMap.values s.isas))
        ≤ suc max_result_limit
      → (out : List Isa) × (search_isas (c ∷ cells) (some earliest) latest s ≡ (ok out, s))
        × Finds (c ∷ cells) earliest latest s out
  unfolding search_isas
  search_isas-Finds distinct few = (
    map isa_to_model hits,
    rw (all_collected few) refl,
    record {
      found = λ isa. (
        λ m.
            let (rec, n, e) = mem_of_map _ _ m in
            let (stored, q) = mem_of_filter _ _ n in
            let (id, g) = get_of_mem-values s.isas distinct stored in
            (id, rec, g, (matches_iff (c ∷ cells) earliest latest rec).0 q, e),
        λ w. rw w.4 (
            mem-map _ _ (
              mem-filter _ _ (mem-values_of_get s.isas w.0 w.2)
                ((matches_iff (c ∷ cells) earliest latest w.1).1 w.3))),
      );
    },
  )
