-- ===== src/Scd/Oir/Key/Conflict.antt =====
-- What a conflict reports.
use mathlib.Core.List.{Memᴰ}
use dss.Prelude.{
  ◌≡◌, refl, sym, ap, ◌∙◌, subst, ◌↔◌, inl, inr, true, false, Option, none, some, List, [], ◌∷◌,
  map, ◌==◌, arith, filter, mem-filter, mem_of_filter, mem-map, mem_of_map, if◌then◌else◌,
  Bool-cases,
}
use dss.Exec.{ok}
use dss.Exec.Reads.{Reads-ok}
use dss.External.{External}
use dss.Scd.Models.{
  EntityId, Manager, OperationalIntent, Constraint, Subscription, oi_requires_key, no_ovn_phrase,
}
use dss.Scd.Models.Rest.{OperationalIntentReference, operational_intent_to_rest}
use dss.Scd.Store.Records.{State, OperationalIntentRecord}
use dss.Scd.Store.Valid.{IsValid}
use dss.Scd.Store.OperationalIntents.{operational_intent_to_model, search_operational_intents}
use dss.Scd.Store.OperationalIntents.Build.{attach}
use dss.Scd.Store.OperationalIntents.Search.{
  search_sound, search_complete, search-Reads, IsWithinLimit,
}
use dss.Scd.Oir.Params.{ValidOirParams, in_key}
use dss.Scd.Oir.Key.{
  AirspaceConflict, is_missing, missing_constraints, scrubbed, listed, conflict,
  validate_key_and_provide_conflict_response,
}
use dss.Scd.Oir.Key.Laws.{IsRelevant, missing-Reads}

-- The references that a list names, none where it is not set.
abbrev pub entries : {A : Type 0} → Option (List A) → List A
entries none = []
entries (some xs) = xs

-- The reference is to a stored operational intent that the key must name and does not. Its OVN is
-- shown only to its own manager.
pub record IsReported (ext : External) (s : State) (m : Manager) (params : ValidOirParams)
    (ref : OperationalIntentReference) : Type 0 where
  pub id : EntityId
  pub rec : OperationalIntentRecord
  pub relevant : IsRelevant ext s params id rec
  pub absent : in_key params (attach ext s rec).ovn ≡ false
  pub shown : ref ≡ record (operational_intent_to_rest ext (attach ext s rec)) {
    ovn = if rec.manager == m then (attach ext s rec).ovn else no_ovn_phrase;
  }

entries-listed : {A B : Type 0} (f : A → B) (xs : List A) → entries (listed f xs) ≡ map f xs
entries-listed f [] = refl
entries-listed f (x ∷ xs) = refl

module _ (ext : External) (m : Manager) (params : ValidOirParams) where
  scrubbed_lem :
      (s : State) (rec : OperationalIntentRecord)
      → scrubbed ext m (attach ext s rec)
        ≡ record (operational_intent_to_rest ext (attach ext s rec)) {
          ovn = if rec.manager == m then (attach ext s rec).ovn else no_ovn_phrase;
        }
  unfolding scrubbed operational_intent_to_rest operational_intent_to_model
  scrubbed_lem s rec = elim (Bool-cases (rec.manager == m)) [
    | inl e ↦ rw e refl
    | inr e ↦ rw e refl
  ]

  is_missing_iff :
      (s : State) (rec : OperationalIntentRecord)
      → (is_missing params (attach ext s rec) ≡ true) ↔ (
          (in_key params (attach ext s rec).ovn ≡ false)
          × (oi_requires_key (attach ext s rec) ≡ true)
          × ((rec.id == params.id) ≡ false))
  unfolding is_missing operational_intent_to_model
  is_missing_iff s rec = (λ h. (ground arith, ground arith, ground arith), λ h. ground arith)

  conflict-some :
      (ops : List OperationalIntent) (cs : List Constraint) {c : AirspaceConflict}
      → conflict ext m ops cs ≡ some c
      → entries c.missing_operational_intents ≡ map (scrubbed ext m) ops
  unfolding conflict
  conflict-some [] [] h = ground arith
  conflict-some [] (k ∷ cs) h = ground arith
  conflict-some (o ∷ ops) cs h = ground arith

  module _ (sub : Option Subscription) {s s' : State} {c : AirspaceConflict}
      (valid : IsValid s) where
    validate-some :
        validate_key_and_provide_conflict_response ext m params sub s ≡ (ok (some c), s')
        → (ops : List OperationalIntent) × (search_operational_intents ext params.volume s
            ≡ (ok ops, s))
          × (entries c.missing_operational_intents
              ≡ map (scrubbed ext m) (filter (is_missing params) ops))
    unfolding validate_key_and_provide_conflict_response
    validate-some h =
        let (ops, e0, h0) =
          Reads-ok (search_operational_intents ext params.volume) _ (search-Reads ext params.volume)
            h in
        let (cs, e1, h1) =
          Reads-ok (missing_constraints ext params sub) _ (missing-Reads ext m params sub) h0 in
        (ops, e0, conflict-some (filter (is_missing params) ops) cs {c = c} (cc h1))

    -- Each operational intent that a conflict reports is stored and missing in the key.
    pub conflict_sound :
        validate_key_and_provide_conflict_response ext m params sub s ≡ (ok (some c), s')
        → (ref : OperationalIntentReference) → Memᴰ ref (entries c.missing_operational_intents)
        → IsReported ext s m params ref
    conflict_sound h ref n =
        let (ops, e0, e1) = validate-some h in
        let (op, k, e) = mem_of_map (scrubbed ext m) _ (subst (Memᴰ ref) e1 n) in
        let (found, q) = mem_of_filter (is_missing params) _ k in
        let (rec, stored, o, i) = search_sound ext params.volume s valid e0 op found in
        let (absent, required, other) =
          (is_missing_iff s rec).0 (subst (λ x. is_missing params x ≡ true) o q) in
        let same = valid.oir_ids op.id rec stored in
        record {
          id = op.id;
          rec = rec;
          relevant = record {
            stored = stored;
            other = subst (λ k. (k == params.id) ≡ false) same other;
            in_area = i;
            required = required;
          };
          absent = absent;
          shown = e ∙ ap (scrubbed ext m) o ∙ scrubbed_lem s rec;
        }

    -- A conflict reports all that is missing in the key, up to the limit of a query.
    pub conflict_complete :
        validate_key_and_provide_conflict_response ext m params sub s ≡ (ok (some c), s')
        → IsWithinLimit params.volume s
        → (ref : OperationalIntentReference) → IsReported ext s m params ref
        → Memᴰ ref (entries c.missing_operational_intents)
    conflict_complete h small ref r =
        let (ops, e0, e1) = validate-some h in
        let v = r.relevant in
        let n = search_complete ext params.volume s valid e0 small r.id r.rec v.stored v.in_area in
        let other =
          subst (λ k. (k == params.id) ≡ false) (sym (valid.oir_ids r.id r.rec v.stored)) v.other in
        let q = (is_missing_iff s r.rec).1 (r.absent, v.required, other) in
        subst (Memᴰ ref) (sym e1) (
          subst (λ x. Memᴰ x (map (scrubbed ext m) (filter (is_missing params) ops)))
            (scrubbed_lem s r.rec ∙ sym r.shown)
            (mem-map (scrubbed ext m) _ (mem-filter (is_missing params) _ n q)))
