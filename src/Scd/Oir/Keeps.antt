-- ===== src/Scd/Oir/Keeps.antt =====
-- Both operations keep the store valid.
use dss.Prelude.{refl, inl, inr, Option, none, some, List, Option-cases, Bool-cases, arith}
use dss.Exec.{coded, not_found, precondition_failed, Exec, raise, raise_if, lift, when, pure}
use dss.Exec.Reads.{raise_if-Reads, Reads}
use dss.Exec.Keeps.{Keeps, Reads-Keeps, >>=-Keeps, when-Keeps}
use dss.External.{External, Time, CellUnion}
use dss.Models.{CellsVolume4D}
use dss.Scd.Models.{EntityId, Manager, requires_key, OperationalIntent, Subscription}
use dss.Scd.Store.Records.{State}
use dss.Scd.Store.Valid.{IsValid}
use dss.Scd.Store.Keeps.{
  delete_operational_intent-Keeps, delete_subscription-Keeps, increment-Keeps,
  upsert_operational_intent-Keeps, upsert_subscription-Keeps,
}
use dss.Scd.Store.Subscriptions.{
  delete_subscription, lock_subscriptions_on_cells,
  increment_notification_indices_for_operational_intents, upsert_subscription,
}
use dss.Scd.Store.OperationalIntents.{
  get_operational_intent, delete_operational_intent, upsert_operational_intent,
}
use dss.Scd.Oir.Params.{
  ValidOirParams, to_oir, validate_upsert_request_against_previous_oir,
  subscription_is_implicit_and_only_attached_to_oir,
}
use dss.Scd.Oir.Delete.{
  DeleteOirPayload, attached_ids, or_raise, previous_subscription, remove_subscription,
  check_delete, delete_checked, delete_operational_intent_reference,
}
use dss.Scd.Oir.Resolve.{Resolved, resolve_subscription}
use dss.Scd.Oir.Key.Laws.{validate-Reads}
use dss.Scd.Oir.Reads.{
  get_operational_intent-Reads, get_subscription-Reads, only_attached-Reads, prior-Reads,
  resolve-Reads,
}
use dss.Scd.Oir.Put.{
  PutResult, conflicting, Prior, prior, may_not_put, check_key, upsert_attached, remove_previous,
  notify_volume, write_oir, put_resolved, put_operational_intent_reference, subscription_ids,
}

pub or_raise-Reads : {A : Type 0} (o : Option A) (m : Exec State A) → Reads m → Reads (or_raise o m)
or_raise-Reads none m h = h
or_raise-Reads (some a) m h = λ s. refl

pub lock-Reads :
    (cells : CellUnion) (ids : List EntityId) (start end : Option Time)
    → Reads (lock_subscriptions_on_cells cells ids start end)
unfolding lock_subscriptions_on_cells
lock-Reads cells ids start end s = refl

remove-Keeps : (sub : Option Subscription) → Keeps IsValid (remove_subscription sub)
unfolding remove_subscription
remove-Keeps none = λ s v. v
remove-Keeps (some sub) = delete_subscription-Keeps sub.id

pub check_delete-Reads :
    (p : DeleteOirPayload) (old : OperationalIntent) → Reads (check_delete p old)
unfolding check_delete
check_delete-Reads p old s = ground arith

module _ (ext : External) where
  notify-Keeps :
      (v : CellsVolume4D)
      → Keeps IsValid (increment_notification_indices_for_operational_intents ext v)
  unfolding increment_notification_indices_for_operational_intents
  notify-Keeps v = increment-Keeps ext v _

  pub previous-Reads : (id : Option EntityId) → Reads (previous_subscription ext id)
  unfolding previous_subscription
  previous-Reads none s = refl
  previous-Reads (some id) s = ground (arith, get_subscription-Reads ext id s)

  delete_checked-Keeps :
      (id : EntityId) (old : OperationalIntent) → Keeps IsValid (delete_checked ext id old)
  unfolding delete_checked
  delete_checked-Keeps id old =
      Reads-Keeps IsValid
        (lock_subscriptions_on_cells old.cells (attached_ids old.subscription_id) old.start_time
          old.end_time)
        _ (lock-Reads _ _ _ _)
        (λ u.
          Reads-Keeps IsValid (previous_subscription ext old.subscription_id) _
            (previous-Reads old.subscription_id)
            (λ prev.
              Reads-Keeps IsValid (subscription_is_implicit_and_only_attached_to_oir id prev) _
                (only_attached-Reads id prev)
                (λ b.
                  >>=-Keeps IsValid
                    (increment_notification_indices_for_operational_intents ext old.volume) _
                    (notify-Keeps old.volume)
                    (λ subs.
                      >>=-Keeps IsValid (delete_operational_intent id) _
                        (delete_operational_intent-Keeps id)
                        (λ u.
                          >>=-Keeps IsValid (when b (remove_subscription prev)) _
                            (when-Keeps IsValid b _ (remove-Keeps prev)) (λ u s v. v))))))

  -- A deletion keeps the store valid, whether it succeeds or not.
  pub delete-IsValid :
      (p : DeleteOirPayload) (s : State)
      → IsValid s
      → IsValid (delete_operational_intent_reference ext p s).1
  unfolding delete_operational_intent_reference
  delete-IsValid p =
      Reads-Keeps IsValid (get_operational_intent ext p.id) _
        (get_operational_intent-Reads ext p.id)
        (λ found.
          Reads-Keeps IsValid (or_raise found (raise (coded not_found))) _
            (or_raise-Reads found _ (λ s. refl))
            (λ old.
              Reads-Keeps IsValid (check_delete p old) _ (check_delete-Reads p old)
                (λ u. delete_checked-Keeps p.id old)))

  module _ (now : Time) (m : Manager) (params : ValidOirParams) where
    upsert_attached-Keeps : (r : Resolved) → Keeps IsValid (upsert_attached ext now r)
    unfolding upsert_attached
    upsert_attached-Keeps r = elim (Bool-cases r.upsert_attached_sub) [
      | inl e ↦ elim (Option-cases r.attached_sub) [
        | inl f ↦ rw (e, f) (λ s v. v)
        | inr (sub, f) ↦
            rw (e, f)
              (>>=-Keeps IsValid (upsert_subscription ext now sub) _
                (upsert_subscription-Keeps ext now sub) (λ stored s v. v))
      ]
      | inr e ↦ rw e (λ s v. v)
    ]

    remove_previous-Keeps :
        (r : Resolved) (prev : Option Subscription) → Keeps IsValid (remove_previous ext now r prev)
    unfolding remove_previous
    remove_previous-Keeps r none =
        when-Keeps IsValid r.remove_previous_implicit_subscription _ (λ s v. v)
    remove_previous-Keeps r (some sub) =
        when-Keeps IsValid r.remove_previous_implicit_subscription (delete_subscription sub.id)
          (delete_subscription-Keeps sub.id)

    write_oir-Keeps :
        (old : Option OperationalIntent) (p : Prior) (r : Resolved)
        → Keeps IsValid (write_oir ext now m params old p r)
    unfolding write_oir
    write_oir-Keeps old p r =
        >>=-Keeps IsValid (upsert_attached ext now r) _ (upsert_attached-Keeps r) (λ att.
          >>=-Keeps IsValid
            (upsert_operational_intent ext now (to_oir params m att p.version p.past_ovns)) _
            (upsert_operational_intent-Keeps ext now _)
            (λ op.
              >>=-Keeps IsValid (remove_previous ext now r p.previous_sub) _
                (remove_previous-Keeps r p.previous_sub)
                (λ u.
                  >>=-Keeps IsValid
                    (increment_notification_indices_for_operational_intents ext
                      (notify_volume ext now params old))
                    _ (notify-Keeps (notify_volume ext now params old)) (λ subs s v. v))))

    pub check_key-Reads : (sub : Option Subscription) → Reads (check_key ext m params sub)
    unfolding check_key
    check_key-Reads sub s = elim (Bool-cases (requires_key params.state)) [
      | inl e ↦ rw e (validate-Reads ext m params sub s)
      | inr e ↦ rw e refl
    ]

    put_resolved-Keeps :
        (old : Option OperationalIntent) (p : Prior) (r : Resolved)
        → Keeps IsValid (put_resolved ext now m params old p r)
    unfolding put_resolved
    put_resolved-Keeps old p r =
        Reads-Keeps IsValid (check_key ext m params r.attached_sub) _
          (check_key-Reads r.attached_sub)
          (λ found.
            elim found
              as (λ found. Keeps IsValid (elim found as (λ x. Exec State PutResult) [
                | none ↦ write_oir ext now m params old p r
                | some c ↦ pure (conflicting c)
              ])) [ none ↦ write_oir-Keeps old p r | some c ↦ λ s v. v ])

    -- An upsert keeps the store valid, whether it succeeds or not.
    pub put-IsValid :
        (s : State) → IsValid s → IsValid (put_operational_intent_reference ext now m params s).1
    unfolding put_operational_intent_reference
    put-IsValid =
        Reads-Keeps IsValid (get_operational_intent ext params.id) _
          (get_operational_intent-Reads ext params.id)
          (λ old.
            Reads-Keeps IsValid
              (lock_subscriptions_on_cells params.volume.cells (subscription_ids old params)
                params.volume.start_time params.volume.end_time)
              _ (lock-Reads _ _ _ _)
              (λ u.
                Reads-Keeps IsValid
                  (lift (validate_upsert_request_against_previous_oir m params.ovn old)) _
                  (λ s. refl)
                  (λ u.
                    Reads-Keeps IsValid (prior ext m params old) _ (prior-Reads ext m params old)
                      (λ p.
                        Reads-Keeps IsValid
                          (raise_if (may_not_put p params) (coded precondition_failed)) _
                          (raise_if-Reads _ _)
                          (λ u.
                            Reads-Keeps IsValid (resolve_subscription ext p.previous_sub m params) _
                              (resolve-Reads ext p.previous_sub m params)
                              (λ r. put_resolved-Keeps old p r))))))
