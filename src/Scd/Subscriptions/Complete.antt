-- ===== src/Scd/Subscriptions/Complete.antt =====
-- A deletion that may be made succeeds.
use mathlib.Core.List.{Memᴰ}
use dss.Prelude.{
  ◌≡◌, refl, inl, inr, Bool, true, false, some, List, [], ◌∷◌, filter, arith, Bool-cases,
  Option-cases, eq_iff, ap, ◌∙◌, str_eq_refl,
}
use dss.GoMap
use dss.GoMap.{get_of_mem-values}
use dss.Exec.{ok}
use dss.External.{External}
use dss.Scd.Models.{EntityId, Subscription}
use dss.Scd.Models.Rest.{subscription_to_rest}
use dss.Scd.Store.Records.{State, OperationalIntentRecord, SubscriptionRecord}
use dss.Scd.Store.Valid.{IsValid}
use dss.Scd.Store.Subscriptions.{subscription_to_model, get_subscription, delete_subscription}
use dss.Scd.Store.OperationalIntents.{get_dependent_operational_intents, depends_on}
use dss.Scd.Subscriptions.Laws.{IsUnused}
use dss.Scd.Subscriptions.{
  DeleteSubscriptionPayload, has_dependents, check_delete_subscription, delete_unused_subscription,
  execute_delete_subscription,
}

filter-none :
    {A : Type 0} (p : A → Bool) (xs : List A)
    → ((x : A) → Memᴰ x xs → p x ≡ false)
    → filter p xs ≡ []
unfolding filter
filter-none p [] h = refl
filter-none p (x ∷ xs) h = rw (h x (Memᴰ.head refl)) (filter-none p xs (λ y m. h y (Memᴰ.tail m)))

depends_on-lem :
    (id : EntityId) (oir : OperationalIntentRecord)
    → depends_on id oir ≡ true
    → oir.subscription_id ≡ some id
unfolding depends_on
depends_on-lem id oir h = elim (Option-cases oir.subscription_id) [
  | inl e ↦ absurd (ground (arith, rw e at h))
  | inr (sub, e) ↦ e ∙ ap some ((eq_iff sub id).0 (rw e at h))
]

no-dependents :
    (s : State) (id : EntityId)
    → IsValid s
    → IsUnused s id
    → get_dependent_operational_intents id s ≡ (ok [], s)
unfolding get_dependent_operational_intents
no-dependents s id valid un =
    rw
      (filter-none (depends_on id) (GoMap.values s.operational_intents) (λ oir m.
        elim (Bool-cases (depends_on id oir)) [
          | inl q ↦
              let (k, g) = get_of_mem-values s.operational_intents valid.distinct_oirs m in
              absurd (un.no_user k oir g (depends_on-lem id oir q))
          | inr q ↦ q
        ]))
      refl

check-passes :
    (p : DeleteSubscriptionPayload) (old : Subscription) (s : State)
    → old.manager ≡ p.manager
    → old.version ≡ p.version
    → check_delete_subscription p old s ≡ (ok tt, s)
unfolding check_delete_subscription
check-passes p old s m v = rw (m, str_eq_refl p.manager, v, str_eq_refl p.version) refl

module _ (ext : External) where
  unused-succeeds :
      (id : EntityId) (old : Subscription) (s : State) (rec : SubscriptionRecord)
      → IsValid s
      → GoMap.get s.subscriptions id ≡ some rec
      → IsUnused s id
      → delete_unused_subscription ext id old s ≡ (
        ok (subscription_to_rest ext old []),
        record s { subscriptions = GoMap.delete s.subscriptions id },
      )
  unfolding delete_unused_subscription has_dependents delete_subscription
  unused-succeeds id old s rec valid e un =
      rw (no-dependents s id valid un, e, delete_subscription) refl

  model-manager : (rec : SubscriptionRecord) → (subscription_to_model ext rec).manager ≡ rec.manager
  unfolding subscription_to_model
  model-manager rec = refl

  -- In a valid store, a request to delete a stored subscription by its manager, at its version, when
  -- no operational intent has the subscription, succeeds: it returns the subscription and removes it
  -- from the store.
  pub execute_delete_subscription_complete :
      (p : DeleteSubscriptionPayload) (s : State) (rec : SubscriptionRecord)
      → IsValid s
      → GoMap.get s.subscriptions p.id ≡ some rec
      → rec.manager ≡ p.manager
      → (subscription_to_model ext rec).version ≡ p.version
      → IsUnused s p.id
      → execute_delete_subscription ext p s ≡ (
        ok (subscription_to_rest ext (subscription_to_model ext rec) []),
        record s { subscriptions = GoMap.delete s.subscriptions p.id },
      )
  unfolding execute_delete_subscription get_subscription
  execute_delete_subscription_complete p s rec valid e m v un =
      rw
        (
          e,
          get_subscription,
          check-passes p (subscription_to_model ext rec) s (model-manager rec ∙ m) v,
          unused-succeeds p.id (subscription_to_model ext rec) s rec valid e un,
        )
        refl
