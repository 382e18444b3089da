-- ===== src/Scd/Store/OperationalIntents/Search.antt =====
-- `SearchOperationalIntents` finds the stored operational intents of an area, up to the limit.
use mathlib.Core.List.{Memᴰ}
use dss.Prelude.{
  ℕ, ◌≡◌, refl, sym, ap, ◌∙◌, subst, ◌≤◌, ◌↔◌, inl, inr, Bool, true, false, Option, none, some,
  List, [], map, arith, filter, collect-eq-take, take, take-all, length, mem-take, mem-map,
  mem_of_map, mem-filter, mem_of_filter, Bool-cases,
}
use dss.GoMap
use dss.GoMap.{GoMap, mem-values_of_get, get_of_mem-values}
use dss.Exec.{ok, err, collect_result}
use dss.Exec.Laws.{collect_result-ok}
use dss.Exec.Reads.{Reads, >>=-Reads}
use dss.External.{External}
use dss.Models.{CellsVolume4D, max_result_limit}
use dss.Scd.Models.{EntityId, OperationalIntent}
use dss.Scd.Store.Records.{State, OperationalIntentRecord, overlaps, overlaps_time, cell_set}
use dss.Scd.Store.Spec.{Intersects, IsOrdered, overlaps_iff, overlaps_time_iff}
use dss.Scd.Store.Valid.{HasBounds, IsValid}
use dss.Scd.Store.OperationalIntents.Build.{attach, build_lem}
use dss.Scd.Store.OperationalIntents.Defs.{
  operational_intent_to_model, oi_matches, too_low, too_high, no_cells, build_operational_intents,
  search_operational_intents,
}

-- The test without the reads that may panic: a record without a bound passes.
pub matches : CellsVolume4D → OperationalIntentRecord → Bool
matches v rec = elim (oi_matches v rec) [ ok b ↦ b | err e ↦ false ]

low_iff : (lo : Option ℕ) (h : ℕ) → (too_low lo (some h) ≡ ok false) ↔ IsOrdered lo (some h)
unfolding too_low
low_iff none h = (λ e. tt, λ t. refl)
low_iff (some l) h = ground arith

high_iff : (hi : Option ℕ) (l : ℕ) → (too_high hi (some l) ≡ ok false) ↔ IsOrdered (some l) hi
unfolding too_high
high_iff none l = (λ e. tt, λ t. refl)
high_iff (some h) l = ground arith

module _ (v : CellsVolume4D) (rec : OperationalIntentRecord) (b : HasBounds rec.volume) where
  -- A record with its bounds is tested without a panic.
  matches-ok : oi_matches v rec ≡ ok (matches v rec)
  unfolding oi_matches matches
  matches-ok = ground arith

  abbrev Tests : Type 0
  Tests =
      (overlaps rec.volume.cells (cell_set v.cells) ≡ true)
      × (too_low v.altitude_lo rec.volume.altitude_hi ≡ ok false)
      × (too_high v.altitude_hi rec.volume.altitude_lo ≡ ok false)
      × (overlaps_time b.start b.end v ≡ true)

  tests_of_matches : matches v rec ≡ true → Tests
  unfolding oi_matches matches
  tests_of_matches h = (ground arith, ground arith, ground arith, ground arith)

  matches_of_tests : Tests → matches v rec ≡ true
  unfolding oi_matches matches
  matches_of_tests t = ground arith

  pub matches_iff : (matches v rec ≡ true) ↔ Intersects v rec.volume
  matches_iff = (
    λ h.
        let (c, low, high, t) = tests_of_matches h in
        let (st, en) = (overlaps_time_iff b.start b.end v).0 t in
        record {
          cells = (overlaps_iff rec.volume.cells v.cells).0 c;
          starts = rw b.start_eq st;
          ends = rw b.end_eq en;
          above = rw b.hi_eq ((low_iff v.altitude_lo b.hi).0 (rw b.hi_eq at low));
          below = rw b.lo_eq ((high_iff v.altitude_hi b.lo).0 (rw b.lo_eq at high));
        },
    λ i. matches_of_tests (
      (overlaps_iff rec.volume.cells v.cells).1 i.cells,
      rw b.hi_eq ((low_iff v.altitude_lo b.hi).1 (rw b.hi_eq at i.above)),
      rw b.lo_eq ((high_iff v.altitude_hi b.lo).1 (rw b.lo_eq at i.below)),
      (overlaps_time_iff b.start b.end v).1 (rw b.start_eq at i.starts, rw b.end_eq at i.ends),
    ),
  )

abbrev found : CellsVolume4D → State → List OperationalIntentRecord
found v s = filter (matches v) (GoMap.values s.operational_intents)

-- At most as many stored operational intents are in the area as a query returns.
abbrev pub IsWithinLimit : CellsVolume4D → State → Type 0
IsWithinLimit v s = length (found v s) ≤ max_result_limit

module _ (ext : External) (v : CellsVolume4D) (s : State) (valid : IsValid s) where
  bounds_of_stored :
      (rec : OperationalIntentRecord)
      → Memᴰ rec (GoMap.values s.operational_intents)
      → HasBounds rec.volume
  bounds_of_stored rec m =
      let (id, e) = get_of_mem-values s.operational_intents valid.distinct_oirs m in
      valid.oir_bounds id rec e

  scan_lem :
      collect_result (oi_matches v) max_result_limit (GoMap.values s.operational_intents) []
      ≡ ok (take max_result_limit (found v s))
  scan_lem =
      collect_result-ok (oi_matches v) (matches v) max_result_limit _ []
        (λ rec m. matches-ok v rec (bounds_of_stored rec m))
      ∙ ap ok (
          collect-eq-take (matches v) max_result_limit (GoMap.values s.operational_intents) []
            (omega arith))

  pub search-ok :
      {out : List OperationalIntent} {s' : State}
      → search_operational_intents ext v s ≡ (ok out, s')
      → (out ≡ map (attach ext s) (take max_result_limit (found v s))) × (s' ≡ s)
  unfolding search_operational_intents
  search-ok h = elim (Bool-cases (no_cells v.cells)) [
    | inl e ↦ cc (rw e at h)
    | inr e ↦ let q = rw (e, scan_lem, build_lem) at h in (cc, cc)
  ]

  -- What a search hands out is stored under its id, built from its record, and in the area.
  pub search_sound :
      {out : List OperationalIntent} {s' : State}
      → search_operational_intents ext v s ≡ (ok out, s')
      → (op : OperationalIntent) → Memᴰ op out
      → (rec : OperationalIntentRecord) × (GoMap.get s.operational_intents op.id ≡ some rec)
        × (op ≡ attach ext s rec)
        × Intersects v rec.volume
  unfolding operational_intent_to_model
  search_sound h op m =
      let (rec, n, e) = mem_of_map _ _ (subst (Memᴰ op) (search-ok h).0 m) in
      let (stored, q) = mem_of_filter (matches v) _ (mem-take max_result_limit (found v s) n) in
      let (id, g) = get_of_mem-values s.operational_intents valid.distinct_oirs stored in
      (
        rec,
        subst (λ k. GoMap.get s.operational_intents k ≡ some rec)
            (sym (ap (λ o. o.id) e ∙ valid.oir_ids id rec g)) g,
        e,
        (matches_iff v rec (bounds_of_stored rec stored)).0 q,
      )

  -- Below the limit, a search hands out every stored operational intent of the area.
  pub search_complete :
      {out : List OperationalIntent} {s' : State}
      → search_operational_intents ext v s ≡ (ok out, s')
      → IsWithinLimit v s
      → (id : EntityId) (rec : OperationalIntentRecord)
      → GoMap.get s.operational_intents id ≡ some rec
      → Intersects v rec.volume
      → Memᴰ (attach ext s rec) out
  search_complete h small id rec g i =
      let stored = mem-values_of_get s.operational_intents id g in
      let q = (matches_iff v rec (bounds_of_stored rec stored)).1 i in
      subst (Memᴰ (attach ext s rec))
        (sym
          ((search-ok h).0 ∙ ap (map (attach ext s)) (take-all max_result_limit (found v s) small)))
        (mem-map _ _ (mem-filter _ _ stored q))

module _ (ext : External) (v : CellsVolume4D) where
  pub search-Reads : Reads (search_operational_intents ext v)
  unfolding search_operational_intents
  search-Reads s = elim (Bool-cases (no_cells v.cells)) [
    | inl e ↦ rw e refl
    | inr e ↦ rw e (
        >>=-Reads
          (λ t. (
            collect_result (oi_matches v) max_result_limit (GoMap.values t.operational_intents) [],
            t,
          ))
          (λ matched. build_operational_intents ext matched) (λ t. refl) (λ matched t. rw build_lem)
          s)
  ]
