-- ===== src/Scd/Oir/Delete/Trace.antt =====
-- The stages of a deletion that succeeds.
use dss.Prelude.{
  ◌≡◌, refl, sym, ap, ◌∙◌, inl, inr, Bool, true, false, Option, none, some, List, ◌==◌, arith,
  if◌then◌else◌, Option-cases, eq_iff,
}
use dss.GoMap
use dss.GoMap.{GoMap, get-delete, get-set}
use dss.Exec.{ok, when}
use dss.Exec.Laws.{>>=-ok}
use dss.Exec.Reads.{Reads-ok}
use dss.External.{External}
use dss.Models.{CellsVolume4D}
use dss.Scd.Models.{EntityId, down, OperationalIntent, Subscription}
use dss.Scd.Store.Records.{State, OperationalIntentRecord, SubscriptionRecord}
use dss.Scd.Store.Subscriptions.{
  delete_subscription, lock_subscriptions_on_cells, bumped,
  increment_notification_indices_for_operational_intents,
}
use dss.Scd.Store.Subscriptions.Laws.{increment_lem, reached}
use dss.Scd.Store.OperationalIntents.{delete_operational_intent, operational_intent_to_model}
use dss.Scd.Store.OperationalIntents.Build.{attach, stored_availability}
use dss.Scd.Store.OperationalIntents.Laws.{get_operational_intent_lem}
use dss.Scd.Oir.Params.{subscription_is_implicit_and_only_attached_to_oir}
use dss.Scd.Oir.Reads.{only_attached-Reads}
use dss.Scd.Oir.Keeps.{previous-Reads, check_delete-Reads, lock-Reads}
use dss.Scd.Oir.Delete.{
  DeleteOirPayload, ChangeResponse, attached_ids, previous_subscription, remove_subscription,
  check_delete, delete_checked, delete_operational_intent_reference,
}

check-passed :
    (p : DeleteOirPayload) (old : OperationalIntent) (s s' : State)
    → check_delete p old s ≡ (ok tt, s')
    → (old.manager ≡ p.manager) × (old.ovn ≡ p.ovn) × ((old.uss_availability == down) ≡ false)
unfolding check_delete
check-passed p old s s' h = (
  (eq_iff old.manager p.manager).0 (ground arith),
  (eq_iff old.ovn p.ovn).0 (ground arith),
  ground arith,
)

delete-ok :
    (id : EntityId) (s s' : State)
    → delete_operational_intent id s ≡ (ok tt, s')
    → s' ≡ record s { operational_intents = GoMap.delete s.operational_intents id }
unfolding delete_operational_intent
delete-ok id s s' h = elim (Option-cases (GoMap.get s.operational_intents id)) [
  | inl e ↦ ground arith
  | inr (rec, e) ↦ cc (rw (e, delete_operational_intent) at h)
]

-- The subscriptions that a deletion leaves of those of the store.
abbrev pub left : Option Subscription → Bool → GoMap SubscriptionRecord → GoMap SubscriptionRecord
left none b m = m
left (some sub) b m = if b then GoMap.delete m sub.id else m

pub remove-ok :
    (b : Bool) (prev : Option Subscription) (s s' : State)
    → when b (remove_subscription prev) s ≡ (ok tt, s')
    → s' ≡ record s { subscriptions = left prev b s.subscriptions }
unfolding remove_subscription delete_subscription
remove-ok true none s s' h = ground arith
remove-ok true (some sub) s s' h = elim (Option-cases (GoMap.get s.subscriptions sub.id)) [
  | inl e ↦ ground arith
  | inr (rec, e) ↦ cc (rw (e, delete_subscription) at h)
]
remove-ok false none s s' h = cc
remove-ok false (some sub) s s' h = cc

-- The subscriptions after the notification of a change in the volume.
abbrev pub notified_subs : CellsVolume4D → State → GoMap SubscriptionRecord
notified_subs v s =
    GoMap.modify_where (reached v (λ rec. rec.notify_for_operational_intents)) bumped
      s.subscriptions

pub notify-ok :
    (ext : External) (v : CellsVolume4D) (s s' : State) {out : List Subscription}
    → increment_notification_indices_for_operational_intents ext v s ≡ (ok out, s')
    → s' ≡ record s { subscriptions = notified_subs v s }
unfolding increment_notification_indices_for_operational_intents
notify-ok ext v s s' h = cc (rw increment_lem at h)

join-tables :
    (id : EntityId) (prev : Option Subscription) (b : Bool) (v : CellsVolume4D)
    (s s3 s4 s5 s' : State)
    → s3 ≡ record s { subscriptions = notified_subs v s }
    → s4 ≡ record s3 { operational_intents = GoMap.delete s3.operational_intents id }
    → s5 ≡ record s4 { subscriptions = left prev b s4.subscriptions }
    → s5 ≡ s'
    → s' ≡ record s {
      operational_intents = GoMap.delete s.operational_intents id;
      subscriptions = left prev b (notified_subs v s);
    }
join-tables id prev b v s s3 s4 s5 s' q1 q2 q3 q4 = sym q4 ∙ q3 ∙ rw q2 (rw q1 refl)

module _ (ext : External) where
  -- A deletion that succeeds read a stored operational intent and passed its guards.
  pub record Passed (p : DeleteOirPayload) (s : State) : Type 0 where
    pub rec : OperationalIntentRecord
    pub stored : GoMap.get s.operational_intents p.id ≡ some rec
    pub manager : rec.manager ≡ p.manager
    pub ovn : (attach ext s rec).ovn ≡ p.ovn
    pub not_down : (stored_availability s rec.manager == down) ≡ false

  pub delete-Passed :
      (p : DeleteOirPayload) {s s' : State} {c : ChangeResponse}
      → delete_operational_intent_reference ext p s ≡ (ok c, s')
      → (w : Passed p s) × (delete_checked ext p.id (attach ext s w.rec) s ≡ (ok c, s'))
  unfolding delete_operational_intent_reference operational_intent_to_model
  delete-Passed p {s} h = elim (Option-cases (GoMap.get s.operational_intents p.id)) [
    | inl e ↦ let k = rw (get_operational_intent_lem, e) at h in absurd (ground arith)
    | inr (rec, e) ↦
        let k = rw (get_operational_intent_lem, e) at h in
        let (u, e1, k1) =
          Reads-ok (check_delete p (attach ext s rec)) _ (check_delete-Reads p (attach ext s rec))
            k in
        let (a, b, c) = check-passed p (attach ext s rec) s s e1 in
        (record { rec = rec; stored = e; manager = a; ovn = b; not_down = c }, k1)
  ]

  -- The stages of a deletion that passed its guards.
  pub record DeleteTrace (id : EntityId) (old : OperationalIntent) (s s' : State) : Type 0 where
    pub previous : Option Subscription
    pub flag : Bool
    pub read : previous_subscription ext old.subscription_id s ≡ (ok previous, s)
    pub tested : subscription_is_implicit_and_only_attached_to_oir id previous s ≡ (ok flag, s)
    pub tables : s' ≡ record s {
      operational_intents = GoMap.delete s.operational_intents id;
      subscriptions = left previous flag (notified_subs old.volume s);
    }

  pub delete-trace :
      (id : EntityId) (old : OperationalIntent) {s s' : State} {c : ChangeResponse}
      → delete_checked ext id old s ≡ (ok c, s')
      → DeleteTrace id old s s'
  unfolding delete_checked
  delete-trace id old {s} {s'} h =
      let (u, e0, h0) =
        Reads-ok
          (lock_subscriptions_on_cells old.cells (attached_ids old.subscription_id) old.start_time
            old.end_time)
          _ (lock-Reads _ _ _ _) h in
      let (prev, e1, h1) =
        Reads-ok (previous_subscription ext old.subscription_id) _
          (previous-Reads ext old.subscription_id) h0 in
      let (b, e2, h2) =
        Reads-ok (subscription_is_implicit_and_only_attached_to_oir id prev) _
          (only_attached-Reads id prev) h1 in
      let (subs, s3, e3, h3) =
        >>=-ok (increment_notification_indices_for_operational_intents ext old.volume) _ h2 in
      let (v, s4, e4, h4) = >>=-ok (delete_operational_intent id) _ h3 in
      let (x, s5, e5, h5) = >>=-ok (when b (remove_subscription prev)) _ h4 in
      let q1 = notify-ok ext old.volume s s3 e3 in
      let q2 = delete-ok id s3 s4 e4 in
      let q3 = remove-ok b prev s4 s5 e5 in
      record {
        previous = prev;
        flag = b;
        read = e1;
        tested = e2;
        tables = join-tables id prev b old.volume s s3 s4 s5 s' q1 q2 q3 (ap (λ x. x.1) h5);
      }
