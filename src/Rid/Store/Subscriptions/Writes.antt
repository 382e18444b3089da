-- ===== src/Rid/Store/Subscriptions/Writes.antt =====
-- What the writes of the store come to: an error that leaves the state, or a stored record.
use dss.Prelude.{
  ◌≡◌, refl, sym, ◌∙◌, subst, ◌⊎◌, inl, inr, true, Option, none, some, arith, Option-cases,
}
use dss.GoMap
use dss.GoMap.{GoMap}
use dss.Exec.{ok, uncoded, deref}
use dss.Exec.Laws.{bind_result-ok, Result-cases}
use dss.Exec.Reads.{HasFailed}
use dss.External.{External, Time}
use dss.Models.Version.{version_from_time, matches}
use dss.Rid.Models.{Subscription}
use dss.Rid.Store.Records.{State, SubscriptionRecord, validate_write_data, find_for_write}
use dss.Rid.Store.Keeps.{HasExtent, validated-HasExtent}
use dss.Rid.Store.Subscriptions.{
  sub_record_from_model, put_subscription, overwrite_subscription, insert_subscription,
  update_subscription,
}

-- The record is that of a subscription, of the time `now`.
pub record IsRecordOf (now : Time) (sub : Subscription) (rec : SubscriptionRecord) : Type 0 where
  pub id : rec.id ≡ sub.id
  pub url : rec.url ≡ sub.url
  pub notification_index : rec.notification_index ≡ sub.notification_index
  pub owner : rec.owner ≡ sub.owner
  pub cells : rec.cells ≡ sub.cells
  pub start_time : sub.start_time ≡ some rec.start_time
  pub end_time : sub.end_time ≡ some rec.end_time
  pub altitude_hi : rec.altitude_hi ≡ sub.altitude_hi
  pub altitude_lo : rec.altitude_lo ≡ sub.altitude_lo
  pub writer : rec.writer ≡ sub.writer
  pub updated_at : rec.updated_at ≡ now

deref_lem : {A : Type 0} (o : Option A) (a : A) → deref o ≡ ok a → o ≡ some a
deref_lem none a h = ground arith
deref_lem (some b) a h = ground arith

record_lem :
    (now : Time) (sub : Subscription) (rec : SubscriptionRecord)
    → sub_record_from_model sub now ≡ ok rec
    → IsRecordOf now sub rec
unfolding sub_record_from_model
record_lem now sub rec h =
    let (a, e0, h0) = bind_result-ok (deref sub.start_time) _ h in
    let (b, e1, h1) = bind_result-ok (deref sub.end_time) _ h0 in
    record {
      id = cc h1;
      url = cc h1;
      notification_index = cc h1;
      owner = cc h1;
      cells = cc h1;
      start_time = deref_lem sub.start_time a e0 ∙ cc h1;
      end_time = deref_lem sub.end_time b e1 ∙ cc h1;
      altitude_hi = cc h1;
      altitude_lo = cc h1;
      writer = cc h1;
      updated_at = cc h1;
    }

pub find_lem :
    (sub : Subscription) (prev : SubscriptionRecord) (s : State)
    → GoMap.get s.subscriptions sub.id ≡ some prev
    → matches (some (version_from_time prev.updated_at)) sub.version ≡ true
    → find_for_write
        (λ (rec : SubscriptionRecord). rec.updated_at)
        s.subscriptions
        sub.id
        sub.version
      ≡ some prev
unfolding find_for_write
find_lem sub prev s g v = rw (find_for_write, g, v) refl

module _ (ext : External) (now : Time) where
  -- A subscription that may be stored has been stored.
  pub record IsStored (sub : Subscription) (s s' : State) : Type 0 where
    pub rec : SubscriptionRecord
    pub is_record : IsRecordOf now sub rec
    pub extent : HasExtent ext rec.cells rec.start_time rec.end_time
    pub tables : s' ≡ record s { subscriptions = GoMap.set s.subscriptions sub.id rec }

  stored_lem :
      (sub : Subscription) (rec : SubscriptionRecord) (s : State)
      → validate_write_data ext sub.cells sub.start_time sub.end_time ≡ ok tt
      → IsRecordOf now sub rec
      → IsStored sub s (record s { subscriptions = GoMap.set s.subscriptions sub.id rec })
  stored_lem sub rec s q r = record {
    rec = rec;
    is_record = r;
    extent =
        subst (λ c. HasExtent ext c rec.start_time rec.end_time) (sym r.cells)
          (validated-HasExtent ext sub.cells sub.start_time sub.end_time rec.start_time rec.end_time
            q r.start_time r.end_time);
    tables = refl;
  }

  owned_lem :
      (sub : Subscription) (prev rec : SubscriptionRecord)
      → prev.owner ≡ sub.owner
      → IsRecordOf now sub rec
      → IsRecordOf now sub (record rec { owner = prev.owner })
  owned_lem sub prev rec o r = ground arith

  pub insert_lem :
      (sub : Subscription) (s : State)
      → HasFailed s (insert_subscription ext now sub s)
        ⊎ ((GoMap.get s.subscriptions sub.id ≡ none)
            × IsStored sub s (insert_subscription ext now sub s).1)
  unfolding insert_subscription put_subscription
  insert_lem sub s =
      elim (Result-cases (validate_write_data ext sub.cells sub.start_time sub.end_time)) [
        | inr (e, q) ↦ rw q (inl (refl, e, refl))
        | inl (u, q) ↦ rw q (elim (Option-cases (GoMap.get s.subscriptions sub.id)) [
          | inr (old, g) ↦ rw g (inl (refl, uncoded, refl))
          | inl g ↦ rw g (elim (Result-cases (sub_record_from_model sub now)) [
            | inr (e, m) ↦ rw m (inl (refl, e, refl))
            | inl (rec, m) ↦ rw m (inr (refl, stored_lem sub rec s q (record_lem now sub rec m)))
          ])
        ])
      ]

  pub update_lem :
      (sub : Subscription) (prev : SubscriptionRecord) (s : State)
      → GoMap.get s.subscriptions sub.id ≡ some prev
      → prev.owner ≡ sub.owner
      → matches (some (version_from_time prev.updated_at)) sub.version ≡ true
      → HasFailed s (update_subscription ext now sub s)
        ⊎ (IsStored sub s (update_subscription ext now sub s).1
            × ((r : Subscription) × ((update_subscription ext now sub s).0 ≡ ok (some r))))
  unfolding update_subscription overwrite_subscription put_subscription
  update_lem sub prev s g o v =
      elim (Result-cases (validate_write_data ext sub.cells sub.start_time sub.end_time)) [
        | inr (e, q) ↦ rw q (inl (refl, e, refl))
        | inl (u, q) ↦
            rw (q, find_lem sub prev s g v)
              (elim (Result-cases (sub_record_from_model sub now)) [
                | inr (e, m) ↦ rw m (inl (refl, e, refl))
                | inl (rec, m) ↦ rw m (
                    inr (
                      stored_lem sub (record rec { owner = prev.owner }) s q
                          (owned_lem sub prev rec o (record_lem now sub rec m)),
                      (_, refl),
                    ))
              ])
      ]
