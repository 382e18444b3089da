-- ===== src/Scd/Subscriptions/Laws.antt =====
-- What a successful deletion of a subscription demands and leaves.
use mathlib.Core.List.{Memᴰ}
use mathlib.Core.List.Memᴰ
use dss.Prelude.{
  ◌≡◌, ◌≢◌, refl, sym, ap, ◌∙◌, subst, inl, inr, true, false, some, List, [], ◌∷◌, ◌==◌, arith,
  Option-cases, Bool-cases, eq_iff, str_eq_refl, mem-map, mem-filter,
}
use dss.GoMap
use dss.GoMap.{get-delete, mem-values_of_get}
use dss.Exec.{ok, coded, not_found, bad_request, raise, raise_if}
use dss.Exec.Keeps.{>>=-Keeps, Reads-Keeps}
use dss.Exec.Laws.{ok-pair, >>=-ok, raise_if-ok}
use dss.Exec.Reads.{Reads, Reads-ok, raise_if-Reads}
use dss.External.{External}
use dss.Scd.Models.{EntityId, Subscription}
use dss.Scd.Models.Rest.{RestSubscription}
use dss.Scd.Store.Records.{State, OperationalIntentRecord, SubscriptionRecord}
use dss.Scd.Store.Valid.{IsValid, IsAttached}
use dss.Scd.Store.Keeps.{delete_subscription-Keeps}
use dss.Scd.Oir.Delete.{or_raise}
use dss.Scd.Oir.Reads.{get_subscription-Reads}
use dss.Scd.Oir.Keeps.{or_raise-Reads}
use dss.Scd.Store.Subscriptions.{subscription_to_model, get_subscription, delete_subscription}
use dss.Scd.Store.OperationalIntents.{get_dependent_operational_intents, depends_on}
use dss.Scd.Oir.Attached.{delete-HasSub}
use dss.Scd.Subscriptions.{
  DeleteSubscriptionPayload, has_dependents, check_delete_subscription, delete_unused_subscription,
  execute_delete_subscription,
}

-- No operational intent has the subscription.
pub record IsUnused (s : State) (id : EntityId) : Type 0 where
  pub no_user :
      (k : EntityId) (oir : OperationalIntentRecord)
      → GoMap.get s.operational_intents k ≡ some oir
      → oir.subscription_id ≢ some id

no-dependents : (ids : List EntityId) → has_dependents ids ≡ false → ids ≡ []
unfolding has_dependents
no-dependents [] h = refl
no-dependents (d ∷ ds) h = ground arith

unused :
    (s : State) (id : EntityId) (ids : List EntityId)
    → get_dependent_operational_intents id s ≡ (ok ids, s)
    → has_dependents ids ≡ false
    → IsUnused s id
unfolding depends_on get_dependent_operational_intents
unused s id ids e h = record {
  no_user = λ k oir g d.
      let kept : depends_on id oir ≡ true = rw (d, str_eq_refl) refl in
      let n =
        mem-map (λ rec. rec.id) _
          (mem-filter (depends_on id) _ (mem-values_of_get s.operational_intents k g) kept) in
      Memᴰ.not-nil (subst (Memᴰ oir.id) ((ok-pair e).0 ∙ no-dependents ids h) n);
}

dependents-Reads : (id : EntityId) → Reads (get_dependent_operational_intents id)
unfolding get_dependent_operational_intents
dependents-Reads id s = refl

delete_subscription-ok :
    (id : EntityId) (s s' : State)
    → delete_subscription id s ≡ (ok tt, s')
    → s' ≡ record s { subscriptions = GoMap.delete s.subscriptions id }
unfolding delete_subscription
delete_subscription-ok id s s' h = elim (Option-cases (GoMap.get s.subscriptions id)) [
  | inl e ↦ ground arith
  | inr (rec, e) ↦ cc (rw (e, delete_subscription) at h)
]

check-Reads :
    (p : DeleteSubscriptionPayload) (old : Subscription) → Reads (check_delete_subscription p old)
unfolding check_delete_subscription
check-Reads p old s = ground arith

check-passed :
    (p : DeleteSubscriptionPayload) (old : Subscription) (s s' : State)
    → check_delete_subscription p old s ≡ (ok tt, s')
    → (old.manager ≡ p.manager) × (old.version ≡ p.version)
unfolding check_delete_subscription
check-passed p old s s' h = (
  (eq_iff old.manager p.manager).0 (ground arith),
  (eq_iff old.version p.version).0 (ground arith),
)

module _ (ext : External) where
  delete_unused_lem :
      (id : EntityId) (old : Subscription) {s s' : State} {r : RestSubscription}
      → delete_unused_subscription ext id old s ≡ (ok r, s')
      → IsUnused s id × (s' ≡ record s { subscriptions = GoMap.delete s.subscriptions id })
  unfolding delete_unused_subscription
  delete_unused_lem id old {s} {s'} h =
      let (ids, e0, h0) =
        Reads-ok (get_dependent_operational_intents id) _ (dependents-Reads id) h in
      let (u, e1, h1) =
        Reads-ok (raise_if (has_dependents ids) (coded bad_request)) _
          (raise_if-Reads (has_dependents ids) (coded bad_request)) h0 in
      let (v, t, e2, h2) = >>=-ok (delete_subscription id) _ h1 in
      (
        unused s id ids e0 (raise_if-ok (has_dependents ids) (coded bad_request) e1).0,
        sym (ok-pair h2).1 ∙ delete_subscription-ok id s t e2,
      )

  pub record IsRemoved (p : DeleteSubscriptionPayload) (s s' : State) : Type 0 where
    pub rec : SubscriptionRecord
    pub stored : GoMap.get s.subscriptions p.id ≡ some rec
    pub manager : rec.manager ≡ p.manager
    pub version : (subscription_to_model ext rec).version ≡ p.version
    pub is_unused : IsUnused s p.id
    pub tables : s' ≡ record s { subscriptions = GoMap.delete s.subscriptions p.id }

  -- A deletion of a subscription that succeeds was of a stored subscription of the requesting
  -- manager, at its version, that no operational intent has. It removes that subscription from the
  -- store and changes nothing else.
  pub execute_delete_subscription-IsRemoved :
      (p : DeleteSubscriptionPayload) {s s' : State} {r : RestSubscription}
      → execute_delete_subscription ext p s ≡ (ok r, s')
      → IsRemoved p s s'
  unfolding execute_delete_subscription get_subscription subscription_to_model
  execute_delete_subscription-IsRemoved p {s} {s'} h =
      elim (Option-cases (GoMap.get s.subscriptions p.id)) [
        | inl e ↦ let k = rw (e, get_subscription) at h in absurd (ground arith)
        | inr (rec, e) ↦
            let old = subscription_to_model ext rec in
            let k = rw (e, get_subscription) at h in
            let (u, e1, k1) = Reads-ok (check_delete_subscription p old) _ (check-Reads p old) k in
            let (a, b) = check-passed p old s s e1 in
            let (c, d) = delete_unused_lem p.id old k1 in
            record { rec = rec; stored = e; manager = a; version = b; is_unused = c; tables = d }
      ]

  -- In a store where each operational intent has a stored subscription, or none, a deletion of a
  -- subscription that succeeds leaves this so.
  pub execute_delete_subscription-IsAttached :
      (p : DeleteSubscriptionPayload) {s s' : State} {r : RestSubscription}
      → IsAttached s
      → execute_delete_subscription ext p s ≡ (ok r, s')
      → IsAttached s'
  execute_delete_subscription-IsAttached p {s} {s'} attached h =
      let w = execute_delete_subscription-IsRemoved p h in
      record {
        at = λ k oir sub_id g d.
            let g' : GoMap.get s.operational_intents k ≡ some oir = rw w.tables at g in
            rw w.tables (
              delete-HasSub s.subscriptions sub_id p.id (distinct k oir sub_id w.is_unused g' d)
                (attached.at k oir sub_id g' d));
      }
    where
      distinct :
          (k : EntityId) (oir : OperationalIntentRecord) (sub_id : EntityId)
          → IsUnused s p.id
          → GoMap.get s.operational_intents k ≡ some oir
          → oir.subscription_id ≡ some sub_id
          → (p.id == sub_id) ≡ false
      distinct k oir sub_id un g d = elim (Bool-cases (p.id == sub_id)) [
        | inl q ↦ absurd (un.no_user k oir g (d ∙ ap some (sym ((eq_iff p.id sub_id).0 q))))
        | inr q ↦ q
      ]

  -- A deletion of a subscription keeps the store valid, whether it succeeds or not.
  pub execute_delete_subscription-IsValid :
      (p : DeleteSubscriptionPayload) (s : State)
      → IsValid s
      → IsValid (execute_delete_subscription ext p s).1
  unfolding execute_delete_subscription delete_unused_subscription
  execute_delete_subscription-IsValid p =
      Reads-Keeps IsValid (get_subscription ext p.id) _ (get_subscription-Reads ext p.id) (λ found.
        Reads-Keeps IsValid (or_raise found (raise (coded not_found))) _
          (or_raise-Reads found _ (λ s. refl))
          (λ old. Reads-Keeps IsValid (check_delete_subscription p old) _ (check-Reads p old) (λ u.
            Reads-Keeps IsValid (get_dependent_operational_intents p.id) _ (dependents-Reads p.id)
              (λ ids.
                Reads-Keeps IsValid (raise_if (has_dependents ids) (coded bad_request)) _
                  (raise_if-Reads _ _)
                  (λ u.
                    >>=-Keeps IsValid (delete_subscription p.id) _ (delete_subscription-Keeps p.id)
                      (λ u s v. v))))))
