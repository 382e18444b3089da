-- ===== src/Scd/Oir/Put/Writes.antt =====
-- What an upsert writes.
use dss.Prelude.{◌≡◌, refl, Option, none, some, List, arith}
use dss.GoMap
use dss.GoMap.{get-set}
use dss.Exec.{ok}
use dss.Exec.Laws.{>>=-ok}
use dss.External.{External, Time}
use dss.Models.{CellsVolume4D}
use dss.Scd.Models.{Manager, OperationalIntent, Subscription}
use dss.Scd.Store.Records.{State, OperationalIntentRecord}
use dss.Scd.Store.Subscriptions.{
  upsert_subscription, delete_subscription, increment_notification_indices_for_operational_intents,
}
use dss.Scd.Store.Subscriptions.Laws.{increment_lem}
use dss.Scd.Store.OperationalIntents.{upsert_operational_intent, record_of}
use dss.Scd.Store.OperationalIntents.Laws.{upsert-ok_eqs}
use dss.Scd.Oir.Params.{ValidOirParams, to_oir}
use dss.Scd.Oir.Resolve.{Resolved}
use dss.Scd.Oir.Put.Defs.{
  PutResult, Prior, upsert_attached, remove_previous, notify_volume, write_oir,
}

-- Only the table of subscriptions may differ.
abbrev pub SameButSubs : State → State → Type 0
SameButSubs s t = t ≡ record s { subscriptions = t.subscriptions }

module _ (ext : External) where
  notify-SameButSubs :
      (v : CellsVolume4D) (s : State)
      → SameButSubs s (increment_notification_indices_for_operational_intents ext v s).1
  unfolding increment_notification_indices_for_operational_intents
  notify-SameButSubs v s = rw increment_lem refl

  module _ (now : Time) where
    upsert_attached-SameButSubs :
        (r : Resolved) (s : State) → SameButSubs s (upsert_attached ext now r s).1
    unfolding upsert_attached upsert_subscription
    upsert_attached-SameButSubs r s = ground arith

    remove_previous-SameButSubs :
        (r : Resolved) (prev : Option Subscription) (s : State)
        → SameButSubs s (remove_previous ext now r prev s).1
    unfolding remove_previous delete_subscription
    remove_previous-SameButSubs r none s = ground arith
    remove_previous-SameButSubs r (some p) s = ground arith

    -- The stages of the writes.
    pub record WriteTrace (m : Manager) (params : ValidOirParams) (old : Option OperationalIntent)
        (p : Prior) (r : Resolved) (s s' : State) : Type 0 where
      pub attached : Option Subscription
      pub op : OperationalIntent
      pub subs : List Subscription
      pub s1 : State
      pub s2 : State
      pub s3 : State
      pub upserted : upsert_attached ext now r s ≡ (ok attached, s1)
      pub written :
          upsert_operational_intent ext now (to_oir params m attached p.version p.past_ovns) s1
          ≡ (ok op, s2)
      pub removed : remove_previous ext now r p.previous_sub s2 ≡ (ok tt, s3)
      pub notified :
          increment_notification_indices_for_operational_intents ext
            (notify_volume ext now params old)
            s3
          ≡ (ok subs, s')

    pub write-trace :
        (m : Manager) (params : ValidOirParams) (old : Option OperationalIntent) (p : Prior)
        (r : Resolved) (s s' : State) {c : PutResult}
        → write_oir ext now m params old p r s ≡ (ok c, s')
        → WriteTrace m params old p r s s'
    unfolding write_oir
    write-trace m params old p r s s' h =
        let (att, s1, e1, h1) = >>=-ok (upsert_attached ext now r) _ h in
        let (op, s2, e2, h2) =
          >>=-ok (upsert_operational_intent ext now (to_oir params m att p.version p.past_ovns)) _
            h1 in
        let (u, s3, e3, h3) = >>=-ok (remove_previous ext now r p.previous_sub) _ h2 in
        let (subs, s4, e4, h4) =
          >>=-ok
            (increment_notification_indices_for_operational_intents ext
              (notify_volume ext now params old))
            _ h3 in
        record {
          attached = att;
          op = op;
          subs = subs;
          s1 = s1;
          s2 = s2;
          s3 = s3;
          upserted = e1;
          written = e2;
          removed = e3;
          notified = cc (e4, h4);
        }

    -- The tables but the subscriptions, after the writes.
    module _ {m : Manager} {params : ValidOirParams} {old : Option OperationalIntent} {p : Prior}
        {r : Resolved} {s s' : State} (w : WriteTrace m params old p r s s') where
      abbrev pub written_rec : OperationalIntentRecord
      written_rec = record_of now (to_oir params m w.attached p.version p.past_ovns)

      pub tables_written : s' ≡ record s {
        operational_intents = GoMap.set s.operational_intents params.id written_rec;
        subscriptions = s'.subscriptions;
      }
      unfolding to_oir
      tables_written =
          let q1 = upsert_attached-SameButSubs r s in
          let q2 =
            (upsert-ok_eqs ext now w.s1 (to_oir params m w.attached p.version p.past_ovns)
              w.written).1 in
          let q3 = remove_previous-SameButSubs r p.previous_sub w.s2 in
          let q4 = notify-SameButSubs (notify_volume ext now params old) w.s3 in
          cc (q1, q2, q3, q4, w.upserted, w.removed, w.notified)
