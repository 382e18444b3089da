-- ===== src/Scd/Oir/Query/Laws.antt =====
-- A query answers with the operational intents of the area, and shows no OVN of another manager.
use mathlib.Core.List.{Memᴰ}
use dss.Prelude.{
  ◌≡◌, ◌≢◌, refl, sym, ap, ◌∙◌, subst, ◌↔◌, inl, inr, some, List, ◌==◌, Bool-cases, eq_iff, mem-map,
  mem_of_map,
}
use dss.GoMap
use dss.Exec.{ok}
use dss.Exec.Laws.{ok-pair}
use dss.Exec.Reads.{Reads-ok}
use dss.External.{External}
use dss.Models.{CellsVolume4D}
use dss.Scd.Models.{EntityId, Manager, no_ovn_phrase, OperationalIntent}
use dss.Scd.Models.Rest.{OperationalIntentReference, operational_intent_to_rest}
use dss.Scd.Store.Records.{State, OperationalIntentRecord}
use dss.Scd.Store.Spec.{Intersects}
use dss.Scd.Store.Valid.{IsValid}
use dss.Scd.Store.OperationalIntents.{search_operational_intents}
use dss.Scd.Store.OperationalIntents.Build.{attach}
use dss.Scd.Store.OperationalIntents.Search.{
  IsWithinLimit, search_sound, search_complete, search-Reads,
}
use dss.Scd.Oir.Key.{scrubbed}
use dss.Scd.Oir.Query.{query_operational_intent_references}

module _ (ext : External) (manager : Manager) where
  scrubbed-ovn :
      (op : OperationalIntent)
      → op.manager ≢ manager
      → (scrubbed ext manager op).ovn ≡ no_ovn_phrase
  unfolding scrubbed
  scrubbed-ovn op other = elim (Bool-cases (op.manager == manager)) [
    | inl e ↦ absurd (other ((eq_iff op.manager manager).0 e))
    | inr e ↦ rw e refl
  ]

  scrubbed-manager : (op : OperationalIntent) → (scrubbed ext manager op).manager ≡ op.manager
  unfolding scrubbed operational_intent_to_rest
  scrubbed-manager op = elim (Bool-cases (op.manager == manager)) [ inl e ↦ rw e | inr e ↦ rw e ]

  -- The answer to a query of an area.
  pub record Answers (v : CellsVolume4D) (s : State) (out : List OperationalIntentReference)
      : Type 0 where
    pub exact :
        (r : OperationalIntentReference)
        → Memᴰ r out ↔ (
            (id : EntityId) × (rec : OperationalIntentRecord) × (GoMap.get s.operational_intents id
              ≡ some rec)
            × Intersects v rec.volume
            × (r ≡ scrubbed ext manager (attach ext s rec)))
    pub hidden :
        (r : OperationalIntentReference) → Memᴰ r out → r.manager ≢ manager → r.ovn ≡ no_ovn_phrase

  -- A query of a valid store that succeeds changes nothing, and where no more operational intents are
  -- in the area than the limit, it answers with exactly the stored ones that intersect it. The OVN of
  -- an operational intent of another manager is hidden.
  pub query_operational_intent_references-Answers :
      (v : CellsVolume4D) {s s' : State} {out : List OperationalIntentReference}
      → IsValid s
      → IsWithinLimit v s
      → query_operational_intent_references ext manager v s ≡ (ok out, s')
      → Answers v s out × (s' ≡ s)
  unfolding query_operational_intent_references
  query_operational_intent_references-Answers v {s} {s'} {out} valid small h =
      let (ops, e, k) = Reads-ok (search_operational_intents ext v) _ (search-Reads ext v) h in
      let (listed, same) = ok-pair k in
      (
        record {
          exact = λ r. (
            λ m.
                let (op, n, q) = mem_of_map _ _ (subst (Memᴰ r) (sym listed) m) in
                let (rec, g, a, i) = search_sound ext v s valid e op n in
                (op.id, rec, g, i, q ∙ ap (scrubbed ext manager) a),
            λ w. subst (Memᴰ r) listed (
                rw w.4 (
                  mem-map (scrubbed ext manager) _
                    (search_complete ext v s valid e small w.0 w.1 w.2 w.3))),
          );
          hidden = λ r m other.
              let (op, n, q) = mem_of_map _ _ (subst (Memᴰ r) (sym listed) m) in
              ap (λ x. x.ovn) q
              ∙ scrubbed-ovn op
                  (λ mine. other (ap (λ x. x.manager) q ∙ scrubbed-manager op ∙ mine));
        },
        sym same,
      )
