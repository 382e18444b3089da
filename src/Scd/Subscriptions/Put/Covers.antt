-- ===== src/Scd/Subscriptions/Put/Covers.antt =====
-- What `ValidateDependentOps` accepts: the subscription covers what depends on it.
use mathlib.Core.List.{Memᴰ}
use mathlib.Core.List.Memᴰ
use mathlib.Core.Option
use dss.Prelude.{
  ℕ, ◌+◌, ◌*◌, ◌≤◌, ◌-◌, ◌≡◌, refl, sym, ap, ◌∙◌, subst, inl, inr, true, Option, none, some, List,
  [], ◌∷◌, map, ltb, arith, Bool-cases, mem-map, mem-filter, str_eq_refl,
}
use dss.GoMap
use dss.GoMap.{mem-values_of_get}
use dss.Exec.{Result, ok, err, bad_request, with_code, map_err, deref, bind_result}
use dss.Exec.Laws.{bind_result-ok, ok-pair}
use dss.External.{External}
use dss.Models.{CellsVolume4D}
use dss.Scd.Models.{EntityId, OperationalIntent, Subscription}
use dss.Scd.Models.TimeRange.{minute}
use dss.Scd.Store.Records.{State, OperationalIntentRecord}
use dss.Scd.Store.Valid.{IsValid}
use dss.Scd.Store.OperationalIntents.{
  operational_intent_to_model, get_dependent_operational_intents, depends_on,
}
use dss.Scd.Store.OperationalIntents.Build.{attach}
use dss.Scd.Store.OperationalIntents.Laws.{get_operational_intent_lem}
use dss.Scd.Subscriptions.Put.{
  covers_altitudes, covers_times, get_operations, validate_dependent_op, validate_dependent_ops,
}

-- Both bounds are there, and the first is at most the second plus some slack.
abbrev pub AtMost : ℕ → Option ℕ → Option ℕ → Type 0
AtMost slack a b = (x : ℕ) × (y : ℕ) × (a ≡ some x) × (b ≡ some y) × (x ≤ y + slack)

-- A volume that covers another, but for five minutes at its start.
pub record Covers (ext : External) (v w : CellsVolume4D) : Type 0 where
  pub cells : ext.contains v.cells w.cells ≡ true
  pub lo : AtMost 0 v.altitude_lo w.altitude_lo
  pub hi : AtMost 0 w.altitude_hi v.altitude_hi
  pub start : AtMost (5 * minute) v.start_time w.start_time
  pub end : AtMost 0 w.end_time v.end_time

deref-ok : {A : Type 0} (o : Option A) {a : A} → deref o ≡ ok a → o ≡ some a
deref-ok none h = ground arith
deref-ok (some b) h = cc h

altitudes_lem :
    (v w : CellsVolume4D)
    → covers_altitudes v w ≡ ok tt
    → AtMost 0 v.altitude_lo w.altitude_lo × AtMost 0 w.altitude_hi v.altitude_hi
unfolding covers_altitudes
altitudes_lem v w h =
    let (op_lo, e0, h0) = bind_result-ok (deref w.altitude_lo) _ h in
    let (lo, e1, h1) = bind_result-ok (deref v.altitude_lo) _ h0 in
    elim (Bool-cases (ltb op_lo lo)) [
      | inl q ↦ let k = rw q at h1 in absurd (ground arith)
      | inr q ↦
          let k = rw q at h1 in
          let (op_hi, e2, h2) = bind_result-ok (deref w.altitude_hi) _ k in
          let (hi, e3, h3) = bind_result-ok (deref v.altitude_hi) _ h2 in
          (
            (lo, op_lo, deref-ok _ e1, deref-ok _ e0, ground arith),
            (op_hi, hi, deref-ok _ e2, deref-ok _ e3, ground arith),
          )
    ]

times_lem :
    (v w : CellsVolume4D)
    → covers_times v w ≡ ok tt
    → AtMost (5 * minute) v.start_time w.start_time × AtMost 0 w.end_time v.end_time
unfolding covers_times
times_lem v w h =
    let (start, e0, h0) = bind_result-ok (deref v.start_time) _ h in
    let (op_start, e1, h1) = bind_result-ok (deref w.start_time) _ h0 in
    elim (Bool-cases (ltb (5 * minute) (start - op_start))) [
      | inl q ↦ let k = rw q at h1 in absurd (ground arith)
      | inr q ↦
          let k = rw q at h1 in
          let (op_end, e2, h2) = bind_result-ok (deref w.end_time) _ k in
          let (end, e3, h3) = bind_result-ok (deref v.end_time) _ h2 in
          (
            (start, op_start, deref-ok _ e0, deref-ok _ e1, ground arith),
            (op_end, end, deref-ok _ e2, deref-ok _ e3, ground arith),
          )
    ]

module _ (ext : External) where
  covers_lem :
      (sub : Subscription) (op : OperationalIntent)
      → validate_dependent_op ext sub op ≡ ok tt
      → Covers ext sub.volume op.volume
  unfolding validate_dependent_op
  covers_lem sub op h = elim (Bool-cases (ext.contains sub.cells op.cells)) [
    | inr q ↦ let k = rw q at h in absurd (ground arith)
    | inl q ↦
        let k = rw q at h in
        let (u, e0, h0) = bind_result-ok (covers_altitudes sub.volume op.volume) _ k in
        let (lo, hi) = altitudes_lem sub.volume op.volume e0 in
        let (start, end) = times_lem sub.volume op.volume h0 in
        record { cells = q; lo = lo; hi = hi; start = start; end = end }
  ]

  map_err-ok :
      {A : Type 0} (r : Result A) {a : A} → map_err (with_code bad_request) r ≡ ok a → r ≡ ok a
  map_err-ok (ok b) h = h
  map_err-ok (err e) h = ground arith

  all_validated :
      (sub : Subscription) (ops : List (Option OperationalIntent)) (op : OperationalIntent)
      → validate_dependent_ops ext sub ops ≡ ok tt
      → Memᴰ (some op) ops
      → Covers ext sub.volume op.volume
  unfolding validate_dependent_ops
  all_validated sub [] op h m = absurd (Memᴰ.not-nil m)
  all_validated sub (x ∷ ops) op h m =
      let (u, e, k) =
        bind_result-ok
          (map_err (with_code bad_request) (bind_result (deref x) (validate_dependent_op ext sub)))
          _ h in
      elim (Memᴰ.cases_cons m) [
        | inl q ↦ covers_lem sub op (map_err-ok _ (rw (sym q) at e))
        | inr n ↦ all_validated sub ops op k n
      ]

  -- The operational intents of a list of ids.
  abbrev operations_of : State → List EntityId → List (Option OperationalIntent)
  operations_of s ids =
      map (λ id. Option.map (attach ext s) (GoMap.get s.operational_intents id)) ids

  pub get_operations_lem :
      (s : State) (ids : List EntityId) → get_operations ext ids s ≡ (ok (operations_of s ids), s)
  unfolding get_operations
  get_operations_lem s [] = refl
  get_operations_lem s (id ∷ ids) = rw get_operational_intent_lem (rw (get_operations_lem s ids))

  -- Every stored operational intent that depends on the subscription is validated.
  pub dependents-covered :
      (s : State) (sub : Subscription) (id : EntityId) (ids : List EntityId)
      → IsValid s
      → get_dependent_operational_intents id s ≡ (ok ids, s)
      → validate_dependent_ops ext sub (operations_of s ids) ≡ ok tt
      → (k : EntityId) (oir : OperationalIntentRecord)
      → GoMap.get s.operational_intents k ≡ some oir
      → oir.subscription_id ≡ some id
      → Covers ext sub.volume oir.volume
  unfolding depends_on get_dependent_operational_intents operational_intent_to_model
  dependents-covered s sub id ids valid e h k oir g d =
      let kept : depends_on id oir ≡ true = rw (d, str_eq_refl) refl in
      let n =
        mem-map (λ rec. rec.id) _
          (mem-filter (depends_on id) _ (mem-values_of_get s.operational_intents k g) kept) in
      let listed : Memᴰ oir.id ids = subst (Memᴰ oir.id) (ok-pair e).0 n in
      let m =
        mem-map (λ i. Option.map (attach ext s) (GoMap.get s.operational_intents i)) _ listed in
      all_validated sub (operations_of s ids) (attach ext s oir) h (
        subst (λ o. Memᴰ (Option.map (attach ext s) o) (operations_of s ids))
          (ap (GoMap.get s.operational_intents) (valid.oir_ids k oir g) ∙ g) m)
