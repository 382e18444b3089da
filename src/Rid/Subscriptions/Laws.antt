-- ===== src/Rid/Subscriptions/Laws.antt =====
-- What a successful operation on subscriptions demands and leaves, and what every one keeps.
use dss.Prelude.{
  String, ◌≡◌, refl, sym, ap, ◌∙◌, subst, inl, inr, Bool, Option, some, arith, if◌then◌else◌,
  str_eq_refl,
}
use dss.GoMap
use dss.GoMap.{get-set}
use dss.Exec.{Result, ok, with_code, bad_request, map_err}
use dss.Exec.Laws.{bind_result-ok}
use dss.Exec.Reads.{HasFailed}
use dss.External.{External, Time}
use dss.Models.{CellsVolume4D}
use dss.Models.Version.{Version}
use dss.Rid.Models.{EntityId, Owner, Subscription, validate_url}
use dss.Rid.Store.Records.{State, SubscriptionRecord}
use dss.Rid.Store.Keeps.{IsValid, stored_subscription-IsValid, deleted_subscription-IsValid}
use dss.Rid.Store.Quota.{IsCounted, IsWithinQuota, stored-IsWithinQuota, deleted-IsWithinQuota}
use dss.Rid.Store.Subscriptions.Writes.{IsStored}
use dss.Rid.Subscriptions.Outcome.{IsCreated, create-cases, IsUpdated, update-cases, delete-cases}
use dss.Rid.Subscriptions.{
  DeleteSubscriptionPayload, SubscriptionResult, new_subscription, execute_create_subscription,
  execute_update_subscription, execute_delete_subscription,
}

failed_not :
    {A : Type 0} (s : State) (x : Result A × State) (a : A) → HasFailed s x → x.0 ≡ ok a → ⊥
failed_not s x a (same, e, q) h = ground (arith, q, h)

module _ (ext : External) (now : Time) where
  -- A creation that succeeds was of a subscription that was not stored, and whose owner had less than
  -- ten subscriptions in each of its cells that have not expired. It stores the subscription of the
  -- request, with the times that `AdjustTimeRange` gives, and changes nothing else.
  pub create-IsCreated :
      (requested : Subscription) (s s' : State) (r : SubscriptionResult)
      → execute_create_subscription ext now requested s ≡ (ok r, s')
      → IsCreated ext now requested s s'
  create-IsCreated requested s s' r h = elim (create-cases ext now requested s) [
    | inl f ↦ absurd (failed_not s _ r f (ap (λ x. x.0) h))
    | inr c ↦ subst (IsCreated ext now requested s) (ap (λ x. x.1) h) c
  ]

  -- An update that succeeds was of a stored subscription of the requesting owner, at its version, who
  -- had less than ten subscriptions in each of its cells that have not expired, itself included. It
  -- stores the subscription of the request, with the times that `AdjustTimeRange` gives, and changes
  -- nothing else.
  pub update_subscription-IsUpdated :
      (requested : Subscription) (s s' : State) (r : SubscriptionResult)
      → execute_update_subscription ext now requested s ≡ (ok r, s')
      → IsUpdated ext now requested s s'
  update_subscription-IsUpdated requested s s' r h = elim (update-cases ext now requested s) [
    | inl f ↦ absurd (failed_not s _ r f (ap (λ x. x.0) h))
    | inr c ↦ subst (IsUpdated ext now requested s) (ap (λ x. x.1) h) c
  ]

  module _ (requested : Subscription) (s : State) where
    stored-IsValid :
        (s' : State) (sub : Subscription)
        → IsValid ext s
        → IsStored ext now sub s s'
        → IsValid ext s'
    stored-IsValid s' sub v st =
        subst (IsValid ext) (sym st.tables)
          (stored_subscription-IsValid ext s v sub.id st.rec (st.is_record.id, st.extent))

    pub create-IsValid :
        IsValid ext s → IsValid ext (execute_create_subscription ext now requested s).1
    create-IsValid v = elim (create-cases ext now requested s) [
      | inl f ↦ subst (IsValid ext) (sym f.0) v
      | inr c ↦ stored-IsValid _ c.sub v c.stored
    ]

    pub update-IsValid :
        IsValid ext s → IsValid ext (execute_update_subscription ext now requested s).1
    update-IsValid v = elim (update-cases ext now requested s) [
      | inl f ↦ subst (IsValid ext) (sym f.0) v
      | inr c ↦ stored-IsValid _ c.sub v c.stored
    ]

    stored_quota :
        (s' : State) (sub : Subscription) (st : IsStored ext now sub s s')
        → IsCounted now st.rec s
        → IsWithinQuota now s
        → IsWithinQuota now s'
    stored_quota s' sub st counted q =
        subst (IsWithinQuota now) (sym st.tables)
          (stored-IsWithinQuota now sub.id st.rec s counted q)

    pub create-IsWithinQuota :
        IsWithinQuota now s → IsWithinQuota now (execute_create_subscription ext now requested s).1
    create-IsWithinQuota q = elim (create-cases ext now requested s) [
      | inl f ↦ subst (IsWithinQuota now) (sym f.0) q
      | inr c ↦ stored_quota _ c.sub c.stored c.counted q
    ]

    pub update-IsWithinQuota :
        IsWithinQuota now s → IsWithinQuota now (execute_update_subscription ext now requested s).1
    update-IsWithinQuota q = elim (update-cases ext now requested s) [
      | inl f ↦ subst (IsWithinQuota now) (sym f.0) q
      | inr c ↦ stored_quota _ c.sub c.stored c.counted q
    ]

  module _ (p : DeleteSubscriptionPayload) (s : State) (v : IsValid ext s) where
    ids :
        (id : EntityId) (rec : SubscriptionRecord)
        → GoMap.get s.subscriptions id ≡ some rec
        → rec.id ≡ id
    ids id rec g = (v.subs_fit id rec g).0

    pub delete-IsValid : IsValid ext (execute_delete_subscription p s).1
    delete-IsValid = elim (delete-cases p s ids) [
      | inl f ↦ subst (IsValid ext) (sym f.0) v
      | inr d ↦ subst (IsValid ext) (sym d.tables) (deleted_subscription-IsValid ext s v d.prev.id)
    ]

    pub delete-IsWithinQuota :
        IsWithinQuota now s → IsWithinQuota now (execute_delete_subscription p s).1
    delete-IsWithinQuota q = elim (delete-cases p s ids) [
      | inl f ↦ subst (IsWithinQuota now) (sym f.0) q
      | inr d ↦ subst (IsWithinQuota now) (sym d.tables) (deleted-IsWithinQuota now d.prev.id s q)
    ]

new_index :
    (id : EntityId) (owner : Owner) (url writer : String) (version : Option Version)
    (extents : CellsVolume4D) (allow_http : Bool) (scheme : String → Result String)
    (sub : Subscription)
    → new_subscription id owner url writer version extents allow_http scheme ≡ ok sub
    → sub.notification_index ≡ 0
unfolding new_subscription
new_index id owner url writer version extents allow_http scheme sub h =
    let (u, e, k) =
      bind_result-ok
        (if allow_http then ok tt else map_err (with_code bad_request) (validate_url scheme url)) _
        h in
    cc k

-- After an update by a request of `newSubscription` that succeeds, the stored notification index is 0,
-- whatever it was before.
pub update-resets_index :
    (ext : External) (now : Time) (id : EntityId) (owner : Owner) (url writer : String)
    (version : Option Version) (extents : CellsVolume4D) (allow_http : Bool)
    (scheme : String → Result String) (requested : Subscription) (s s' : State)
    (r : SubscriptionResult)
    → new_subscription id owner url writer version extents allow_http scheme ≡ ok requested
    → execute_update_subscription ext now requested s ≡ (ok r, s')
    → (rec : SubscriptionRecord) × (GoMap.get s'.subscriptions requested.id ≡ some rec)
      × (rec.notification_index ≡ 0)
update-resets_index ext now id owner url writer version extents allow_http scheme requested s s' r n
      h =
    let u = update_subscription-IsUpdated ext now requested s s' r h in
    let zero_index = new_index id owner url writer version extents allow_http scheme requested n in
    (
      u.stored.rec,
      stored_at u.sub u.stored (ap (λ x. x.id) u.adjusted.result),
      u.stored.is_record.notification_index
          ∙ ap (λ x. x.notification_index) u.adjusted.result
          ∙ zero_index,
    )
  where
    stored_at :
        (sub : Subscription) (st : IsStored ext now sub s s')
        → sub.id ≡ requested.id
        → GoMap.get s'.subscriptions requested.id ≡ some st.rec
    stored_at sub st e = rw (st.tables, ← e, get-set, str_eq_refl) refl
