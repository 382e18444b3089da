-- ===== src/Scd/Oir/Put/Chosen.antt =====
-- The subscription that `resolveSubscription` settles on, against those in the store.
use dss.Prelude.{
  ◌≡◌, refl, sym, ap, subst, ◌∙◌, ◌⊎◌, inl, inr, Bool, true, false, Option, none, some, not, ◌==◌,
  arith, Bool-cases, Option-cases,
}
use dss.GoMap
use dss.Exec.{Result, ok, coded, permission_denied, raise_if}
use dss.Exec.Reads.{Reads-ok, raise_if-Reads}
use dss.External.{External}
use dss.Scd.Models.{EntityId, Manager, OperationalIntent, Subscription}
use dss.Scd.Store.Records.{State}
use dss.Scd.Store.Valid.{IsValid}
use dss.Scd.Store.Subscriptions.{get_subscription, subscription_to_model}
use dss.Scd.Store.OperationalIntents.Build.{availability_or_default_lem}
use dss.Scd.Oir.Params.{
  ValidOirParams, new_implicit_subscription, subscription_is_implicit_and_only_attached_to_oir,
}
use dss.Scd.Oir.Reads.{
  get_subscription-Reads, requested-Reads, use_requested-Reads, choose-Reads, only_attached-Reads,
}
use dss.Scd.Oir.Attached.{HasSub, HasOneUser, only_attached_lem}
use dss.Scd.Oir.Resolve.{
  Changed, Resolved, is_being_replaced, requested_subscription, use_requested, choose_subscription,
  resolve_subscription,
}
use dss.Scd.Oir.Resolve.Laws.{ensure-IsStep}
use dss.Scd.Oir.Put.Defs.{Prior, prior, prior_of_old, prior_of_new}

not-replaced :
    (params : ValidOirParams) (p sub : Subscription)
    → is_being_replaced (some p) params ≡ true
    → sub.id ≡ params.subscription_id
    → (sub.id == p.id) ≡ false
unfolding is_being_replaced
not-replaced params p sub f g = rw g (ground arith)

module _ (ext : External) (s : State) (valid : IsValid s) where
  get_subscription-ok :
      (id : EntityId) (o : Option Subscription) (sub : Subscription)
      → get_subscription ext id s ≡ (ok o, s)
      → o ≡ some sub
      → HasSub s.subscriptions id × (sub.id ≡ id)
  unfolding get_subscription subscription_to_model
  get_subscription-ok id o sub h e = elim (Option-cases (GoMap.get s.subscriptions id)) [
    | inl f ↦ cc (rw (f, get_subscription) at h, e)
    | inr (rec, f) ↦
        let q = rw (f, get_subscription) at h in
        let same : subscription_to_model ext rec ≡ sub = cc (q, e) in
        ((rec, f), sym (ap (λ x. x.id) same) ∙ valid.sub_ids id rec f)
  ]

  -- The subscription is in the store.
  Stored : Subscription → Type 0
  Stored sub = HasSub s.subscriptions sub.id

  found-Stored :
      (id : EntityId) (o : Option Subscription) (sub : Subscription)
      → get_subscription ext id s ≡ (ok o, s)
      → o ≡ some sub
      → Stored sub
  unfolding Stored
  found-Stored id o sub h e =
      let (found, same) = get_subscription-ok id o sub h e in
      subst (λ k. HasSub s.subscriptions k) (sym same) found

  -- The previous subscription is one from the store.
  pub prior-Stored :
      (m : Manager) (params : ValidOirParams) (old : Option OperationalIntent) (p : Prior)
      → prior ext m params old s ≡ (ok p, s)
      → (sub : Subscription) → p.previous_sub ≡ some sub
      → HasSub s.subscriptions sub.id
  unfolding prior prior_of_old prior_of_new Stored
  prior-Stored m params none p h sub e = let q = rw availability_or_default_lem at h in cc (q, e)
  prior-Stored m params (some old) p h sub e = elim (Option-cases old.subscription_id) [
    | inl f ↦ cc (rw f at h, e)
    | inr (id, f) ↦
        let (o, e1, k) =
          Reads-ok (get_subscription ext id) _ (get_subscription-Reads ext id) (rw f at h) in
        found-Stored id o sub e1 (cc (k, e))
  ]

  -- A requested subscription is one from the store, under the id of the request if the previous one is
  -- being replaced.
  requested-Stored :
      (prev : Option Subscription) (replaced : Bool) (params : ValidOirParams) (sub : Subscription)
      → ((p : Subscription) → prev ≡ some p → HasSub s.subscriptions p.id)
      → requested_subscription ext prev replaced params s ≡ (ok sub, s)
      → HasSub s.subscriptions sub.id × (replaced ≡ true → sub.id ≡ params.subscription_id)
  unfolding requested_subscription Stored
  requested-Stored (some p) false params sub before h =
      let q : p ≡ sub = cc h in
      (subst (λ x. HasSub s.subscriptions x.id) q (before p refl), λ f. cc f)
  requested-Stored (some p) true params sub before h =
      let (o, e, k) =
        Reads-ok (get_subscription ext params.subscription_id) _
          (get_subscription-Reads ext params.subscription_id) h in
      elim (Option-cases o) [
        | inl f ↦ cc (rw f at k)
        | inr (x, f) ↦
            let q : x ≡ sub = cc (rw f at k) in
            let g : o ≡ some sub = f ∙ ap some q in
            (
              found-Stored params.subscription_id o sub e g,
              λ r. (get_subscription-ok params.subscription_id o sub e g).1,
            )
      ]
  requested-Stored none replaced params sub before h =
      let (o, e, k) =
        Reads-ok (get_subscription ext params.subscription_id) _
          (get_subscription-Reads ext params.subscription_id) h in
      elim (Option-cases o) [
        | inl f ↦ cc (rw f at k)
        | inr (x, f) ↦
            let q : x ≡ sub = cc (rw f at k) in
            let g : o ≡ some sub = f ∙ ap some q in
            (
              found-Stored params.subscription_id o sub e g,
              λ r. (get_subscription-ok params.subscription_id o sub e g).1,
            )
      ]

  -- The subscription to attach is a new one under the id of the request for one, or one from the store.
  Chosen : ValidOirParams → Bool → Option Subscription × Bool → Type 0
  Chosen params replaced c =
      (sub : Subscription)
      → c.0 ≡ some sub
      → ((sub.id ≡ params.implicit_subscription.id) × (c.1 ≡ true))
        ⊎ (HasSub s.subscriptions sub.id × (replaced ≡ true → sub.id ≡ params.subscription_id))

  use_requested-Chosen :
      (prev : Option Subscription) (replaced : Bool) (m : Manager) (params : ValidOirParams)
      (c : Changed)
      → ((p : Subscription) → prev ≡ some p → HasSub s.subscriptions p.id)
      → use_requested ext prev replaced m params s ≡ (ok c, s)
      → HasSub s.subscriptions c.0.id × (replaced ≡ true → c.0.id ≡ params.subscription_id)
  unfolding use_requested
  use_requested-Chosen prev replaced m params c before h =
      let (sub, e, k) =
        Reads-ok (requested_subscription ext prev replaced params) _
          (requested-Reads ext prev replaced params) h in
      let (u, e1, k1) =
        Reads-ok (raise_if (not (sub.manager == m)) (coded permission_denied)) _
          (raise_if-Reads _ _) k in
      let same = (ensure-IsStep ext sub params {c = c} (ap (λ x. x.0) k1)).0 in
      let (found, named) = requested-Stored prev replaced params sub before e in
      (subst (λ k. HasSub s.subscriptions k) (sym same) found, λ r. same ∙ named r)

  attached-eq :
      (d : Changed) (c : Option Subscription × Bool) (sub : Subscription)
      → Path (Result (Option Subscription × Bool) × State) (ok (some d.0, d.1), s) (ok c, s)
      → c.0 ≡ some sub
      → d.0 ≡ sub
  attached-eq d c sub k e = cc (k, e)

  choose-Chosen :
      (prev : Option Subscription) (replaced : Bool) (m : Manager) (params : ValidOirParams)
      (c : Option Subscription × Bool)
      → ((p : Subscription) → prev ≡ some p → HasSub s.subscriptions p.id)
      → choose_subscription ext prev replaced m params s ≡ (ok c, s)
      → Chosen params replaced c
  unfolding choose_subscription Chosen new_implicit_subscription
  choose-Chosen prev replaced m params c before h sub e =
      elim (Bool-cases (params.subscription_id == "")) [
        | inl f ↦ elim (Bool-cases (params.implicit_subscription.id == "")) [
          | inl g ↦ cc (rw (f, g) at h, e)
          | inr g ↦ let k = rw (f, g) at h in inl (cc (k, e), cc (k, e))
        ]
        | inr f ↦
            let (d, e1, k) =
              Reads-ok (use_requested ext prev replaced m params) _
                (use_requested-Reads ext prev replaced m params) (rw f at h) in
            let same = attached-eq d c sub k e in
            inr (
              subst
                (λ x.
                  HasSub s.subscriptions x.id × (replaced ≡ true → x.id ≡ params.subscription_id))
                same (use_requested-Chosen prev replaced m params d before e1))
      ]

  -- What was resolved: the subscription to attach, and the one to remove.
  pub record IsResolved (params : ValidOirParams) (prev : Option Subscription) (r : Resolved)
      : Type 0 where
    pub attached :
        (sub : Subscription)
        → r.attached_sub ≡ some sub
        → ((sub.id ≡ params.implicit_subscription.id) × (r.upsert_attached_sub ≡ true))
          ⊎ HasSub s.subscriptions sub.id
    pub removed :
        (p : Subscription)
        → prev ≡ some p
        → r.remove_previous_implicit_subscription ≡ true
        → HasOneUser s params.id p
    pub different :
        (p sub : Subscription)
        → prev ≡ some p
        → r.remove_previous_implicit_subscription ≡ true
        → r.attached_sub ≡ some sub
        → (sub.id ≡ params.implicit_subscription.id) ⊎ ((sub.id == p.id) ≡ false)

  pub resolve-IsResolved :
      (prev : Option Subscription) (m : Manager) (params : ValidOirParams) (r : Resolved)
      → ((p : Subscription) → prev ≡ some p → HasSub s.subscriptions p.id)
      → resolve_subscription ext prev m params s ≡ (ok r, s)
      → IsResolved params prev r
  unfolding resolve_subscription Chosen
  resolve-IsResolved prev m params r before h = elim (Bool-cases (is_being_replaced prev params)) [
    | inl f ↦
        let (b, e1, k1) =
          Reads-ok (subscription_is_implicit_and_only_attached_to_oir params.id prev) _
            (only_attached-Reads params.id prev) (rw f at h) in
        let (c, e2, k2) =
          Reads-ok (choose_subscription ext prev true m params) _
            (choose-Reads ext prev true m params) k1 in
        replaced b c r e1 (choose-Chosen prev true m params c before e2) f k2
    | inr f ↦
        let (c, e2, k2) =
          Reads-ok (choose_subscription ext prev false m params) _
            (choose-Reads ext prev false m params) (rw f at h) in
        kept c r (choose-Chosen prev false m params c before e2) k2
  ]
    where
      kept :
          (c : Option Subscription × Bool) (r : Resolved)
          → Chosen params false c
          → Path
              (Result Resolved × State)
              (
                ok (record {
                  attached_sub = c.0;
                  upsert_attached_sub = c.1;
                  remove_previous_implicit_subscription = false;
                }),
                s,
              )
              (ok r, s)
          → IsResolved params prev r
      kept c r chosen k =
          let q : record {
            attached_sub = c.0;
            upsert_attached_sub = c.1;
            remove_previous_implicit_subscription = false;
          }
              ≡ r =
            cc k in
          subst (IsResolved params prev) q (record {
            attached = λ sub e. elim (chosen sub e) [ inl x ↦ inl x | inr x ↦ inr x.0 ];
            removed = λ p e t. cc t;
            different = λ p sub e t a. cc t;
          })

      replaced :
          (b : Bool) (c : Option Subscription × Bool) (r : Resolved)
          → subscription_is_implicit_and_only_attached_to_oir params.id prev s ≡ (ok b, s)
          → Chosen params true c
          → is_being_replaced prev params ≡ true
          → Path
              (Result Resolved × State)
              (
                ok (record {
                  attached_sub = c.0;
                  upsert_attached_sub = c.1;
                  remove_previous_implicit_subscription = b;
                }),
                s,
              )
              (ok r, s)
          → IsResolved params prev r
      replaced b c r e chosen f k =
          let q : record {
            attached_sub = c.0;
            upsert_attached_sub = c.1;
            remove_previous_implicit_subscription = b;
          }
              ≡ r =
            cc k in
          subst (IsResolved params prev) q (record {
            attached = λ sub a. elim (chosen sub a) [ inl x ↦ inl x | inr x ↦ inr x.0 ];
            removed = λ p g t. only_attached_lem s params.id p valid (rw (g, t) at e);
            different = λ p sub g t a. elim (chosen sub a) [
              | inl x ↦ inl x.0
              | inr x ↦ inr (not-replaced params p sub (rw g at f) (x.1 refl))
            ];
          })
