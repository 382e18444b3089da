-- ===== src/Scd/Oir/Put/Attached.antt =====
-- An upsert leaves each operational intent with a stored subscription, or none.
use dss.Prelude.{
  ◌≡◌, refl, sym, ap, subst, ◌∙◌, inl, inr, true, false, Option, none, some, ◌==◌, arith,
  Bool-cases, Option-cases, eq_iff, str_eq_refl,
}
use dss.GoMap
use dss.GoMap.{GoMap, get-set}
use dss.Exec.{ok}
use dss.Exec.Laws.{>>=-ok, ok-pair}
use dss.External.{External, Time}
use dss.Scd.Models.{EntityId, Manager, OperationalIntent, Subscription}
use dss.Scd.Store.Records.{State, SubscriptionRecord}
use dss.Scd.Store.Valid.{IsValid, IsAttached}
use dss.Scd.Store.Subscriptions.{upsert_subscription, subscription_to_model, bumped}
use dss.Scd.Store.OperationalIntents.{record_of}
use dss.Scd.Store.OperationalIntents.Laws.{upsert-ok_eqs}
use dss.Scd.Oir.Params.{ValidOirParams, to_oir}
use dss.Scd.Oir.Delete.{ChangeResponse, remove_subscription}
use dss.Scd.Oir.Delete.Trace.{left, remove-ok, notify-ok}
use dss.Scd.Oir.Delete.Laws.{left-HasSub}
use dss.Scd.Oir.Attached.{HasSub, modify_where-HasSub, set-HasSub}
use dss.Scd.Oir.Resolve.{Resolved}
use dss.Scd.Oir.Put.Defs.{
  response, Prior, upsert_attached, remove_previous, notify_volume,
  put_operational_intent_reference,
}
use dss.Scd.Oir.Put.Trace.{put-trace, stored_oir}
use dss.Scd.Oir.Put.Safety.{resolved-response}
use dss.Scd.Oir.Put.Writes.{WriteTrace, write-trace, written_rec, tables_written}
use dss.Scd.Oir.Put.Chosen.{prior-Stored, IsResolved, resolve-IsResolved}

-- An id under which nothing is stored is not one under which something is.
fresh-different :
    (m : GoMap SubscriptionRecord) (i k : EntityId)
    → GoMap.get m i ≡ none
    → HasSub m k
    → (i == k) ≡ false
fresh-different m i k f (sub, g) = elim (Bool-cases (i == k)) [
  | inl e ↦ cc (subst (λ x. GoMap.get m x ≡ none) ((eq_iff i k).0 e) f, g)
  | inr e ↦ e
]

sym_ne : (i k : EntityId) → (k == i) ≡ false → (i == k) ≡ false
sym_ne i k h = ground (arith, eq_iff i k, eq_iff k i)

clash : (i k : EntityId) → (i == k) ≡ false → k ≡ i → ⊥
clash i k ne e = ground (arith, eq_iff i k)

-- The subscriptions after the one to attach is stored: none is lost, and it is one of them.
record IsUpserted (r : Resolved) (s : State) (att : Option Subscription) (s1 : State) : Type 0 where
  kept : (k : EntityId) → HasSub s.subscriptions k → HasSub s1.subscriptions k
  named :
      (a : Subscription)
      → att ≡ some a
      → (sub : Subscription) × (r.attached_sub ≡ some sub) × (a.id ≡ sub.id)
  made :
      (a : Subscription)
      → att ≡ some a
      → r.upsert_attached_sub ≡ true
      → HasSub s1.subscriptions a.id

module _ (ext : External) (now : Time) where
  upsert_subscription-ok :
      (sub a : Subscription) (s s1 : State)
      → upsert_subscription ext now sub s ≡ (ok a, s1)
      → (rec : SubscriptionRecord) × (s1
          ≡ record s { subscriptions = GoMap.set s.subscriptions sub.id rec })
        × (a.id ≡ sub.id)
  unfolding upsert_subscription subscription_to_model
  upsert_subscription-ok sub a s s1 h = elim (Option-cases sub.start_time) [
    | inl e ↦ cc (rw (e, upsert_subscription) at h)
    | inr (st, e) ↦ elim (Option-cases sub.end_time) [
      | inl f ↦ cc (rw (e, f, upsert_subscription) at h)
      | inr (en, f) ↦
          let (qa, qs) = ok-pair (rw (e, f, upsert_subscription) at h) in
          (_, sym qs, sym (ap (λ x. x.id) qa))
    ]
  ]

  upsert_attached-IsUpserted :
      (r : Resolved) (s : State) (att : Option Subscription) (s1 : State)
      → upsert_attached ext now r s ≡ (ok att, s1)
      → IsUpserted r s att s1
  unfolding upsert_attached
  upsert_attached-IsUpserted r s att s1 h = elim (Bool-cases r.upsert_attached_sub) [
    | inl e ↦ elim (Option-cases r.attached_sub) [
      | inl f ↦ cc (rw (e, f) at h)
      | inr (sub, f) ↦
          let (a, t, e1, k) = >>=-ok (upsert_subscription ext now sub) _ (rw (e, f) at h) in
          let (rec, q, same) = upsert_subscription-ok sub a s t e1 in
          let (at_a, at_s1) = ok-pair k in upserted f rec (sym at_s1 ∙ q) same at_a
    ]
    | inr e ↦
        let k = rw e at h in
        let (same, q) = ok-pair k in
        record {
          kept = λ id w. rw⁻¹ q w;
          named = λ a g. (a, same ∙ g, refl);
          made = λ a g t. cc (e, t);
        }
  ]
    where
      upserted :
          {sub a : Subscription}
          → r.attached_sub ≡ some sub
          → (rec : SubscriptionRecord)
          → s1 ≡ record s { subscriptions = GoMap.set s.subscriptions sub.id rec }
          → a.id ≡ sub.id
          → some a ≡ att
          → IsUpserted r s att s1
      upserted {sub} {a} f rec q same at_a = record {
        kept = λ id w. rw q (set-HasSub s.subscriptions id sub.id rec w);
        named = λ b g. let e : a ≡ b = cc (at_a, g) in (sub, f, sym (ap (λ x. x.id) e) ∙ same);
        made = λ b g t.
            let e : a ≡ b = cc (at_a, g) in
            let here : HasSub (GoMap.set s.subscriptions sub.id rec) sub.id =
              (rec, rw (get-set, str_eq_refl) refl) in
            rw q (
              subst (HasSub (GoMap.set s.subscriptions sub.id rec)) (sym same ∙ ap (λ x. x.id) e)
                here);
      }

  removed-ok :
      (r : Resolved) (prev : Option Subscription) (s s' : State)
      → remove_previous ext now r prev s ≡ (ok tt, s')
      → s' ≡ record s {
        subscriptions = left prev r.remove_previous_implicit_subscription s.subscriptions;
      }
  unfolding remove_previous remove_subscription
  removed-ok r none s s' h = remove-ok r.remove_previous_implicit_subscription none s s' h
  removed-ok r (some sub) s s' h =
      remove-ok r.remove_previous_implicit_subscription (some sub) s s' h

  module _ {m : Manager} {params : ValidOirParams} {old : Option OperationalIntent} {p : Prior}
      {r : Resolved} {s s' : State} (w : WriteTrace ext now m params old p r s s') where
    -- A subscription that is not the one to remove outlives the writes after the first.
    outlives :
        (k : EntityId)
        → ((sub : Subscription)
            → p.previous_sub ≡ some sub
            → r.remove_previous_implicit_subscription ≡ true
            → (sub.id == k) ≡ false)
        → HasSub w.s1.subscriptions k
        → HasSub s'.subscriptions k
    outlives k ne has =
        let q2 =
          (upsert-ok_eqs ext now w.s1 (to_oir params m w.attached p.version p.past_ovns)
            w.written).1 in
        let q3 = removed-ok r p.previous_sub w.s2 w.s3 w.removed in
        let q4 = notify-ok ext (notify_volume ext now params old) w.s3 s' w.notified in
        let at2 : HasSub w.s2.subscriptions k = rw q2 has in
        let at3 : HasSub w.s3.subscriptions k = rw q3 (
          left-HasSub p.previous_sub r.remove_previous_implicit_subscription k w.s2.subscriptions ne
            at2) in
        rw q4 (modify_where-HasSub w.s3.subscriptions k _ bumped at3)

    -- The subscription that the new operational intent has.
    own-HasSub :
        (valid : IsValid s)
        → IsResolved ext s valid params p.previous_sub r
        → GoMap.get s.subscriptions params.implicit_subscription.id ≡ none
        → ((sub : Subscription) → p.previous_sub ≡ some sub → HasSub s.subscriptions sub.id)
        → (a : Subscription) → w.attached ≡ some a
        → HasSub s'.subscriptions a.id
    own-HasSub valid resolved fresh before a e =
        let up = upsert_attached-IsUpserted r s w.attached w.s1 w.upserted in
        let (sub, f, same) = up.named a e in
        outlives a.id
          (λ prev g t. elim (resolved.different prev sub g t f) [
            | inl x ↦
                sym_ne prev.id a.id
                  (rw (same ∙ x) (fresh-different s.subscriptions _ prev.id fresh (before prev g)))
            | inr x ↦ sym_ne prev.id a.id (rw same x)
          ])
          (elim (resolved.attached sub f) [
            | inl x ↦ up.made a e x.1
            | inr x ↦ up.kept a.id (rw same x)
          ])

    written-IsAttached :
        (valid : IsValid s)
        → IsAttached s
        → IsResolved ext s valid params p.previous_sub r
        → GoMap.get s.subscriptions params.implicit_subscription.id ≡ none
        → ((sub : Subscription) → p.previous_sub ≡ some sub → HasSub s.subscriptions sub.id)
        → IsAttached s'
    unfolding record_of to_oir
    written-IsAttached valid attached resolved fresh before =
        let up = upsert_attached-IsUpserted r s w.attached w.s1 w.upserted in
        record {
          at = λ k rec sub_id g d. elim (Bool-cases (params.id == k)) [
            | inl e ↦
                let same : some (written_rec ext now w) ≡ some rec =
                  rw (get-set, e) at (rw (tables_written ext now w) at g) in
                elim (Option-cases w.attached) [
                  | inl f ↦ cc (same, f, d)
                  | inr (a, f) ↦
                      let q : a.id ≡ sub_id = cc (same, f, d) in
                      subst (HasSub s'.subscriptions) q (own-HasSub valid resolved fresh before a f)
                ]
            | inr e ↦
                let g' : GoMap.get s.operational_intents k ≡ some rec =
                  rw (get-set, e) at (rw (tables_written ext now w) at g) in
                outlives sub_id
                  (λ sub f t. elim (Bool-cases (sub.id == sub_id)) [
                    | inl x ↦ absurd (
                        clash params.id k e (
                          (resolved.removed sub f t).only k rec g'
                            (d ∙ ap some (sym ((eq_iff sub.id sub_id).0 x)))))
                    | inr x ↦ x
                  ])
                  (up.kept sub_id (attached.at k rec sub_id g' d))
          ];
        }

module _ (ext : External) (now : Time) (m : Manager) (params : ValidOirParams) {s s' : State} where
  -- In a valid store where each operational intent has a stored subscription, or none, an upsert that
  -- succeeds leaves this so, provided that the id for a new implicit subscription is a new one.
  pub put-IsAttached :
      {c : ChangeResponse}
      → IsValid s
      → IsAttached s
      → GoMap.get s.subscriptions params.implicit_subscription.id ≡ none
      → put_operational_intent_reference ext now m params s ≡ (ok (response c), s')
      → IsAttached s'
  put-IsAttached valid attached fresh h =
      let t = put-trace ext now m params h in
      let old = stored_oir ext s params in
      let (e, k) = resolved-response ext now m params old t.before t.resolved t.wrote in
      let w = write-trace ext now m params old t.before t.resolved s s' k in
      let before = prior-Stored ext s valid m params old t.before t.read in
      let resolved =
        resolve-IsResolved ext s valid t.before.previous_sub m params t.resolved before t.chosen in
      written-IsAttached ext now w valid attached resolved fresh before
