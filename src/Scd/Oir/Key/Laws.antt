-- ===== src/Scd/Oir/Key/Laws.antt =====
-- The key check against the stored operational intents.
use mathlib.Core.List.{Memᴰ}
use mathlib.Core.List.Memᴰ
use dss.Prelude.{
  ◌≡◌, refl, subst, inl, inr, Bool, true, false, Option, none, some, List, [], ◌∷◌, ◌==◌, arith,
  filter, mem-filter, Bool-cases,
}
use dss.GoMap
use dss.Exec.{ok}
use dss.Exec.Reads.{Reads, Reads-ok}
use dss.External.{External}
use dss.Scd.Models.{EntityId, Manager, OperationalIntent, Constraint, Subscription, oi_requires_key}
use dss.Scd.Store.Records.{State, ConstraintRecord, OperationalIntentRecord}
use dss.Scd.Store.Spec.{Intersects}
use dss.Scd.Store.Valid.{IsValid}
use dss.Scd.Store.Constraints
use dss.Scd.Store.Constraints.{constraint_to_model, search_constraints}
use dss.Scd.Store.Constraints.Search
use dss.Scd.Store.Constraints.Search.{
  IsNear, search-Reads as search_constraints-Reads, search_complete as search_constraints-complete,
}
use dss.Scd.Store.OperationalIntents.{operational_intent_to_model, search_operational_intents}
use dss.Scd.Store.OperationalIntents.Build.{attach}
use dss.Scd.Store.OperationalIntents.Search.{search_complete, search-Reads, IsWithinLimit}
use dss.Scd.Oir.Params.{ValidOirParams, in_key}
use dss.Scd.Oir.Key.{
  is_missing, constraint_is_missing, missing_constraints, conflict,
  validate_key_and_provide_conflict_response,
}

-- The stored operational intent is in the area of the request, is another one, and is one of those
-- that a key must name.
pub record IsRelevant (ext : External) (s : State) (params : ValidOirParams) (id : EntityId)
    (rec : OperationalIntentRecord) : Type 0 where
  pub stored : GoMap.get s.operational_intents id ≡ some rec
  pub other : (id == params.id) ≡ false
  pub in_area : Intersects params.volume rec.volume
  pub required : oi_requires_key (attach ext s rec) ≡ true

-- A stored constraint near the request, where the subscription asks for constraints.
pub record IsRelevantConstraint (s : State) (params : ValidOirParams) (sub : Option Subscription)
    (id : EntityId) (rec : ConstraintRecord) : Type 0 where
  pub stored : GoMap.get s.constraints id ≡ some rec
  pub near : IsNear params.volume rec.volume
  pub attached : Subscription
  pub attached_eq : sub ≡ some attached
  pub notified : attached.notify_for_constraints ≡ true

-- A test that keeps nothing of a list fails on each of its elements.
filter-nil :
    {A : Type 0} (p : A → Bool) (xs : List A) {x : A} → filter p xs ≡ [] → Memᴰ x xs → p x ≡ false
filter-nil p xs {x} h n = elim (Bool-cases (p x)) [
  | inl e ↦ absurd (Memᴰ.not-nil (subst (Memᴰ x) h (mem-filter _ _ n e)))
  | inr e ↦ e
]

module _ (ext : External) (m : Manager) (params : ValidOirParams) where
  -- No conflict means that nothing is missing.
  conflict-none :
      (ops : List OperationalIntent) (cs : List Constraint)
      → conflict ext m ops cs ≡ none
      → (ops ≡ []) × (cs ≡ [])
  unfolding conflict
  conflict-none [] [] h = (refl, refl)
  conflict-none [] (c ∷ cs) h = ground arith
  conflict-none (o ∷ ops) [] h = ground arith
  conflict-none (o ∷ ops) (c ∷ cs) h = ground arith

  module _ (sub : Option Subscription) where
    pub missing-Reads : Reads (missing_constraints ext params sub)
    unfolding missing_constraints
    missing-Reads s = ground (arith, search_constraints-Reads ext params.volume s)

    pub validate-Reads : Reads (validate_key_and_provide_conflict_response ext m params sub)
    unfolding validate_key_and_provide_conflict_response
    validate-Reads s = ground (arith, search-Reads ext params.volume s, missing-Reads s)

    -- A check that finds no conflict found the entities and nothing missing among them.
    validate-none :
        {s s' : State}
        → validate_key_and_provide_conflict_response ext m params sub s ≡ (ok none, s')
        → (ops : List OperationalIntent) × (cs : List Constraint) × (search_operational_intents ext
              params.volume s
            ≡ (ok ops, s))
          × (missing_constraints ext params sub s ≡ (ok cs, s))
          × (filter (is_missing params) ops ≡ [])
          × (cs ≡ [])
    unfolding validate_key_and_provide_conflict_response
    validate-none {s} h =
        let (ops, e0, h0) =
          Reads-ok (search_operational_intents ext params.volume) _ (search-Reads ext params.volume)
            h in
        let (cs, e1, h1) = Reads-ok (missing_constraints ext params sub) _ missing-Reads h0 in
        let (n, k) = conflict-none (filter (is_missing params) ops) cs (cc h1) in
        (ops, cs, e0, e1, n, k)

  module _ (sub : Option Subscription) {s s' : State} (valid : IsValid s) where
    pub key_checked :
        validate_key_and_provide_conflict_response ext m params sub s ≡ (ok none, s')
        → IsWithinLimit params.volume s
        → (id : EntityId) (rec : OperationalIntentRecord) → IsRelevant ext s params id rec
        → in_key params (attach ext s rec).ovn ≡ true
    unfolding is_missing operational_intent_to_model
    key_checked h small id rec r =
        let (ops, cs, e0, e1, nothing, k) = validate-none sub h in
        let n = search_complete ext params.volume s valid e0 small id rec r.stored r.in_area in
        let kept = filter-nil (is_missing params) ops nothing n in
        let other : (rec.id == params.id) ≡ false = rw (valid.oir_ids id rec r.stored) r.other in
        ground (arith, r.required, other, kept)

    pub constraints_checked :
        validate_key_and_provide_conflict_response ext m params sub s ≡ (ok none, s')
        → Constraints.Search.IsWithinLimit params.volume s
        → (id : EntityId) (rec : ConstraintRecord) → IsRelevantConstraint s params sub id rec
        → in_key params (constraint_to_model ext rec).ovn ≡ true
    unfolding missing_constraints constraint_is_missing
    constraints_checked h small id rec r =
        let (ops, cs, e0, e1, k, nothing) = validate-none sub h in
        let e2 = rw (r.attached_eq, r.notified) at e1 in
        let (found, e3, h3) =
          Reads-ok (search_constraints ext params.volume) _
            (search_constraints-Reads ext params.volume) e2 in
        let n =
          search_constraints-complete ext params.volume s valid e3 small id rec r.stored r.near in
        let kept = filter-nil (constraint_is_missing params) found (cc h3) n in ground (arith, kept)
