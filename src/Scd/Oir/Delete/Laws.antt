-- ===== src/Scd/Oir/Delete/Laws.antt =====
-- What a successful deletion demands and leaves.
use dss.Prelude.{
  ◌≡◌, refl, sym, ap, ◌∙◌, inl, inr, Bool, true, false, Option, none, some, ◌==◌, arith, Bool-cases,
  eq_iff, str_eq_refl,
}
use dss.GoMap
use dss.GoMap.{GoMap, get-delete, get-set}
use dss.Exec.{ok}
use dss.External.{External}
use dss.Models.{CellsVolume4D}
use dss.Scd.Models.{EntityId, Subscription}
use dss.Scd.Store.Records.{State, SubscriptionRecord}
use dss.Scd.Store.Valid.{IsValid, IsAttached}
use dss.Scd.Store.Subscriptions.{bumped}
use dss.Scd.Store.OperationalIntents.Build.{attach}
use dss.Scd.Oir.Attached.{HasOneUser, only_attached_lem, HasSub, modify_where-HasSub, delete-HasSub}
use dss.Scd.Oir.Delete.Trace.{left, notified_subs, Passed, delete-Passed, delete-trace}
use dss.Scd.Oir.Delete.{DeleteOirPayload, ChangeResponse, delete_operational_intent_reference}

pub left-HasSub :
    (prev : Option Subscription) (b : Bool) (k : EntityId) (m : GoMap SubscriptionRecord)
    → ((sub : Subscription) → prev ≡ some sub → b ≡ true → (sub.id == k) ≡ false)
    → HasSub m k
    → HasSub (left prev b m) k
left-HasSub none b k m ne h = h
left-HasSub (some sub) true k m ne h = delete-HasSub m k sub.id (ne sub refl refl) h
left-HasSub (some sub) false k m ne h = h

-- Without one operational intent, and with the subscriptions that `left` keeps.
without-IsAttached :
    (id : EntityId) (prev : Option Subscription) (b : Bool) (v : CellsVolume4D) {s s' : State}
    → IsAttached s
    → ((sub : Subscription) → prev ≡ some sub → b ≡ true → HasOneUser s id sub)
    → s' ≡ record s {
      operational_intents = GoMap.delete s.operational_intents id;
      subscriptions = left prev b (notified_subs v s);
    }
    → IsAttached s'
without-IsAttached id prev b v {s} {s'} attached only e = record {
  at = λ k rec sub_id g d. elim (Bool-cases (id == k)) [
    | inl q ↦ absurd (ground (arith, get-delete s.operational_intents id k, rw e at g))
    | inr q ↦
        let g' : GoMap.get s.operational_intents k ≡ some rec = rw (get-delete, q) at (rw e at g) in
        rw e (
          left-HasSub prev b sub_id (notified_subs v s)
            (λ sub f t. elim (Bool-cases (sub.id == sub_id)) [
              | inl r ↦
                  let own =
                    (only sub f t).only k rec g' (d ∙ ap some (sym ((eq_iff sub.id sub_id).0 r))) in
                  absurd (clash id k q own)
              | inr r ↦ r
            ])
            (modify_where-HasSub s.subscriptions sub_id _ bumped (attached.at k rec sub_id g' d)))
  ];
}
  where
    clash : (id k : EntityId) → (id == k) ≡ false → k ≡ id → ⊥
    clash id k ne e = ground (arith, eq_iff id k)

module _ (ext : External) (p : DeleteOirPayload) where
  -- What a deletion that succeeded was given and left.
  pub record IsDeleted (s s' : State) : Type 0 where
    pub passed : Passed ext p s
    pub gone : GoMap.get s'.operational_intents p.id ≡ none
    pub others :
        (id : EntityId)
        → (p.id == id) ≡ false
        → GoMap.get s'.operational_intents id ≡ GoMap.get s.operational_intents id
    pub constraints : s'.constraints ≡ s.constraints
    pub availabilities : s'.availabilities ≡ s.availabilities

  -- A deletion that succeeds was of a stored operational intent of the requesting manager, at its
  -- OVN, by a USS that is not down. The operational intent is gone, and no other one and no constraint
  -- or availability has changed.
  pub delete-removed :
      {s s' : State} {c : ChangeResponse}
      → delete_operational_intent_reference ext p s ≡ (ok c, s')
      → IsDeleted s s'
  delete-removed {s} {s'} h =
      let (w, k) = delete-Passed ext p h in
      let q = (delete-trace ext p.id (attach ext s w.rec) k).tables in
      record {
        passed = w;
        gone = rw (q, get-delete, str_eq_refl) refl;
        others = λ id ne. rw (q, get-delete, ne) refl;
        constraints = ap (λ t. t.constraints) q;
        availabilities = ap (λ t. t.availabilities) q;
      }

  -- In a valid store where each operational intent has a stored subscription, or none, a deletion
  -- that succeeds leaves this so: it removes a subscription only when no other operational intent has
  -- it.
  pub delete-IsAttached :
      {s s' : State} {c : ChangeResponse}
      → IsValid s
      → IsAttached s
      → delete_operational_intent_reference ext p s ≡ (ok c, s')
      → IsAttached s'
  delete-IsAttached {s} {s'} valid attached h =
      let (w, k) = delete-Passed ext p h in
      let t = delete-trace ext p.id (attach ext s w.rec) k in
      without-IsAttached p.id t.previous t.flag (attach ext s w.rec).volume attached
        (λ sub e b. only_attached_lem s p.id sub valid (rw (e, b) at t.tested)) t.tables
