-- ===== src/Scd/Oir/Attached.antt =====
-- The subscription test of both operations, and the references from operational intents to
-- subscriptions that the changes to the tables leave intact.
use mathlib.Core.List.{Memᴰ}
use mathlib.Core.List.Memᴰ
use dss.Prelude.{
  ◌≡◌, refl, sym, ap, ◌∙◌, subst, inl, inr, Bool, true, false, some, List, [], ◌∷◌, map, ◌==◌,
  arith, if◌then◌else◌, Bool-cases, eq_iff, str_eq_refl, filter, mem-map, mem-filter,
}
use dss.GoMap
use dss.GoMap.{GoMap, get-set, get-delete, get-modify_where, modified, mem-values_of_get}
use dss.Exec.{ok}
use dss.Scd.Models.{EntityId, Subscription}
use dss.Scd.Store.Records.{State, OperationalIntentRecord, SubscriptionRecord}
use dss.Scd.Store.Valid.{IsValid}
use dss.Scd.Store.OperationalIntents.{get_dependent_operational_intents, depends_on}
use dss.Scd.Oir.Params.{only_dependent, subscription_is_implicit_and_only_attached_to_oir}

only-lem : (id : EntityId) (ids : List EntityId) → only_dependent id ids ≡ ok true → ids ≡ id ∷ []
unfolding only_dependent
only-lem id [] h = ground arith
only-lem id (d ∷ []) h = ap (λ x. x ∷ []) ((eq_iff d id).0 (cc h))
only-lem id (d ∷ e ∷ ds) h = ground arith

-- The subscription is implicit, and no operational intent but `id` has it.
pub record HasOneUser (s : State) (id : EntityId) (sub : Subscription) : Type 0 where
  pub implicit : sub.implicit_subscription ≡ true
  pub only :
      (k : EntityId) (rec : OperationalIntentRecord)
      → GoMap.get s.operational_intents k ≡ some rec
      → rec.subscription_id ≡ some sub.id
      → k ≡ id

pub only_attached_lem :
    (s : State) (id : EntityId) (sub : Subscription)
    → IsValid s
    → subscription_is_implicit_and_only_attached_to_oir id (some sub) s ≡ (ok true, s)
    → HasOneUser s id sub
unfolding subscription_is_implicit_and_only_attached_to_oir get_dependent_operational_intents
    depends_on
only_attached_lem s id sub valid h = elim (Bool-cases sub.implicit_subscription) [
  | inl e ↦
      let ids =
        only-lem id
          (map (λ rec. rec.id) (filter (depends_on sub.id) (GoMap.values s.operational_intents)))
          (cc (rw e at h)) in
      record {
        implicit = e;
        only = λ k rec g d.
            let kept : depends_on sub.id rec ≡ true = rw (d, str_eq_refl) refl in
            let n =
              mem-map (λ rec. rec.id) _
                (mem-filter (depends_on sub.id) _ (mem-values_of_get s.operational_intents k g)
                  kept) in
            sym (valid.oir_ids k rec g) ∙ elim (Memᴰ.cases_cons (subst (Memᴰ rec.id) ids n)) [
              | inl q ↦ q
              | inr q ↦ absurd (Memᴰ.not-nil q)
            ];
      }
  | inr e ↦ cc (rw e at h)
]

-- A subscription is stored under the id.
abbrev pub HasSub : GoMap SubscriptionRecord → EntityId → Type 0
HasSub m k = (sub : SubscriptionRecord) × (GoMap.get m k ≡ some sub)

module _ (m : GoMap SubscriptionRecord) (k : EntityId) where
  pub modify_where-HasSub :
      (p : SubscriptionRecord → Bool) (f : SubscriptionRecord → SubscriptionRecord)
      → HasSub m k
      → HasSub (GoMap.modify_where p f m) k
  modify_where-HasSub p f (sub, e) = (if p sub then f sub else sub, rw (get-modify_where, e) refl)

  pub delete-HasSub : (d : EntityId) → (d == k) ≡ false → HasSub m k → HasSub (GoMap.delete m d) k
  delete-HasSub d ne (sub, e) = (sub, rw (get-delete, ne) e)

  pub set-HasSub : (j : EntityId) (v : SubscriptionRecord) → HasSub m k → HasSub (GoMap.set m j v) k
  set-HasSub j v (sub, e) = elim (Bool-cases (j == k)) [
    | inl q ↦ (v, rw (get-set, q) refl)
    | inr q ↦ (sub, rw (get-set, q) e)
  ]
