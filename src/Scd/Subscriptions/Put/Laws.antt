-- ===== src/Scd/Subscriptions/Put/Laws.antt =====
-- What a creation or an update of a subscription that succeeds demands and leaves.
use mathlib.Core.Option
use dss.Prelude.{
  ℕ, ◌≡◌, refl, sym, ap, ◌∙◌, inl, inr, Option, none, some, List, arith, Option-cases, eq_iff,
}
use dss.GoMap
use dss.Exec.{ok, lift}
use dss.Exec.Laws.{>>=-ok, lift-ok, ok-pair}
use dss.Exec.Reads.{Reads, Reads-ok, >>=-Reads}
use dss.Exec.Keeps.{Reads-Keeps, >>=-Keeps, Keeps-of_Reads}
use dss.External.{External, Time}
use dss.Scd.Models.{EntityId, Manager, Subscription}
use dss.Scd.Models.Rest.{subscription_to_rest}
use dss.Scd.Models.TimeRange.{adjust_time_range}
use dss.Scd.Models.TimeRange.Laws.{IsAdjusted, adjust-IsAdjusted}
use dss.Scd.Store.Records.{State, OperationalIntentRecord, SubscriptionRecord}
use dss.Scd.Store.Valid.{IsValid}
use dss.Scd.Store.Keeps.{upsert_subscription-Keeps}
use dss.Scd.Store.Subscriptions.{subscription_to_model, get_subscription, upsert_subscription}
use dss.Scd.Store.OperationalIntents.{get_dependent_operational_intents}
use dss.Scd.Store.OperationalIntents.Search as OiSearch
use dss.Scd.Store.Constraints.Search as ConstraintSearch
use dss.Scd.Oir.Reads.{get_subscription-Reads}
use dss.Scd.Subscriptions.Put.{
  PutSubscriptionResponse, check_requested, get_operations, validate_dependent_ops, check_put,
  operational_intent_references, constraint_references, put_response, execute_put_subscription,
}
use dss.Scd.Subscriptions.Put.Covers.{Covers, get_operations_lem, dependents-covered}

-- The record that the store makes of a subscription.
abbrev pub put_record : Time → Subscription → Time → Time → SubscriptionRecord
put_record now sub start end = record {
  id = sub.id;
  manager = sub.manager;
  notification_index = sub.notification_index;
  uss_base_url = sub.uss_base_url;
  notify_for_operational_intents = sub.notify_for_operational_intents;
  notify_for_constraints = sub.notify_for_constraints;
  implicit_subscription = sub.implicit_subscription;
  start_time = start;
  end_time = end;
  cells = sub.cells;
  updated_at = now;
}

abbrev pub with_sub : State → EntityId → SubscriptionRecord → State
with_sub s id rec = record s { subscriptions = GoMap.set s.subscriptions id rec }

dependents-Reads : (id : EntityId) → Reads (get_dependent_operational_intents id)
unfolding get_dependent_operational_intents
dependents-Reads id s = refl

requested_new : (sub : Subscription) → check_requested sub none ≡ ok tt → sub.version ≡ ""
unfolding check_requested
requested_new sub h = (eq_iff sub.version "").0 (ground arith)

requested_old :
    (sub old : Subscription)
    → check_requested sub (some old) ≡ ok tt
    → (sub.version ≡ old.version) × (old.manager ≡ sub.manager)
unfolding check_requested
requested_old sub old h = (
  (eq_iff sub.version old.version).0 (ground arith),
  (eq_iff old.manager sub.manager).0 (ground arith),
)

module _ (ext : External) where
  get_subscription_lem :
      (id : EntityId) (s : State)
      → get_subscription ext id s
        ≡ (ok (Option.map (subscription_to_model ext) (GoMap.get s.subscriptions id)), s)
  unfolding get_subscription
  get_subscription_lem id s = elim (Option-cases (GoMap.get s.subscriptions id)) [
    | inl e ↦ rw (e, get_subscription) refl
    | inr (rec, e) ↦ rw (e, get_subscription) refl
  ]

  get_operations-Reads : (ids : List EntityId) → Reads (get_operations ext ids)
  get_operations-Reads ids s = rw get_operations_lem refl

  check_put-Reads : (sub : Subscription) (old : Option Subscription) → Reads (check_put ext sub old)
  unfolding check_put
  check_put-Reads sub none = >>=-Reads (lift (check_requested sub none)) _ (λ t. refl) (λ u s. refl)
  check_put-Reads sub (some old) =
      >>=-Reads (lift (check_requested sub (some old))) _ (λ t. refl)
        (λ u.
          >>=-Reads (get_dependent_operational_intents sub.id) _ (dependents-Reads sub.id) (λ ids.
            >>=-Reads (get_operations ext ids) _ (get_operations-Reads ids) (λ ops.
              >>=-Reads
                (lift (
                  validate_dependent_ops ext
                    (record sub { notification_index = old.notification_index }) ops))
                _ (λ t. refl) (λ u s. refl))))

  references-Reads :
      (m : Manager) (sub : Subscription) → Reads (operational_intent_references ext m sub)
  unfolding operational_intent_references
  references-Reads m sub s = ground (arith, OiSearch.search-Reads ext sub.volume s)

  constraints-Reads : (m : Manager) (sub : Subscription) → Reads (constraint_references ext m sub)
  unfolding constraint_references
  constraints-Reads m sub s = ground (arith, ConstraintSearch.search-Reads ext sub.volume s)

  response-Reads :
      (m : Manager) (sub : Subscription) (ids : List EntityId) → Reads (put_response ext m sub ids)
  unfolding put_response
  response-Reads m sub ids =
      >>=-Reads (operational_intent_references ext m sub) _ (references-Reads m sub) (λ ops.
        >>=-Reads (constraint_references ext m sub) _ (constraints-Reads m sub) (λ cs s. refl))

  -- Whether it succeeds or not, a creation or an update of a subscription keeps the store valid.
  pub execute_put_subscription-IsValid :
      (now : Time) (requested : Subscription) (s : State)
      → IsValid s
      → IsValid (execute_put_subscription ext now requested s).1
  unfolding execute_put_subscription
  execute_put_subscription-IsValid now requested =
      Reads-Keeps IsValid (get_subscription ext requested.id) _
        (get_subscription-Reads ext requested.id)
        (λ old.
          Reads-Keeps IsValid (lift (adjust_time_range now requested old)) _ (λ t. refl)
            (λ adjusted.
              Reads-Keeps IsValid (check_put ext adjusted old) _ (check_put-Reads adjusted old)
                (λ checked.
                  >>=-Keeps IsValid (upsert_subscription ext now checked.0) _
                    (upsert_subscription-Keeps ext now checked.0)
                    (λ stored.
                      Keeps-of_Reads IsValid (put_response ext requested.manager stored checked.1)
                        (response-Reads requested.manager stored checked.1)))))

  -- What the stored subscription, if any, asks of the request, and the index to store.
  abbrev pub Follows : Subscription → Option SubscriptionRecord → ℕ → Type 0
  Follows sub none index = (sub.version ≡ "") × (index ≡ sub.notification_index)
  Follows sub (some rec) index =
      (sub.version ≡ (subscription_to_model ext rec).version)
      × (rec.manager ≡ sub.manager)
      × (index ≡ rec.notification_index)

  -- An update covers what depends on the subscription.
  abbrev pub Covered : State → Subscription → Option SubscriptionRecord → Type 0
  Covered s sub none = Unit
  Covered s sub (some rec) =
      (k : EntityId) (oir : OperationalIntentRecord)
      → GoMap.get s.operational_intents k ≡ some oir
      → oir.subscription_id ≡ some sub.id
      → Covers ext sub.volume oir.volume

  record IsChecked (s : State) (sub : Subscription) (found : Option SubscriptionRecord)
      (checked : Subscription) : Type 0 where
    index : ℕ
    fields : checked ≡ record sub { notification_index = index }
    follows : Follows sub found index
    covered : Covered s sub found

  check_put-IsChecked :
      (s : State) (sub : Subscription) (found : Option SubscriptionRecord)
      {checked : Subscription × List EntityId} {s' : State}
      → IsValid s
      → check_put ext sub (Option.map (subscription_to_model ext) found) s ≡ (ok checked, s')
      → IsChecked s sub found checked.0
  unfolding check_put subscription_to_model
  check_put-IsChecked s sub none valid h =
      let (u, e0, h0) = Reads-ok (lift (check_requested sub none)) _ (λ t. refl) h in
      record {
        index = sub.notification_index;
        fields = sym (ap (λ c. c.0) (ok-pair h0).0);
        follows = (requested_new sub (lift-ok _ e0), refl);
        covered = tt;
      }
  check_put-IsChecked s sub (some rec) valid h =
      let indexed = record sub { notification_index = rec.notification_index } in
      let old = subscription_to_model ext rec in
      let (u, e0, h0) = Reads-ok (lift (check_requested sub (some old))) _ (λ t. refl) h in
      let (ids, e1, h1) =
        Reads-ok (get_dependent_operational_intents sub.id) _ (dependents-Reads sub.id) h0 in
      let (ops, e2, h2) = Reads-ok (get_operations ext ids) _ (get_operations-Reads ids) h1 in
      let (v, e3, h3) = Reads-ok (lift (validate_dependent_ops ext indexed ops)) _ (λ t. refl) h2 in
      let (version, manager) = requested_old sub old (lift-ok _ e0) in
      let same = (ok-pair (sym e2 ∙ get_operations_lem ext s ids)).0 in
      record {
        index = rec.notification_index;
        fields = sym (ap (λ c. c.0) (ok-pair h3).0);
        follows = (version, manager, refl);
        covered = dependents-covered ext s indexed sub.id ids valid e1 (rw same at (lift-ok _ e3));
      }

  upsert_lem :
      (now : Time) (sub : Subscription) (a b : Time) (s : State)
      → sub.start_time ≡ some a
      → sub.end_time ≡ some b
      → upsert_subscription ext now sub s ≡ (
        ok (subscription_to_model ext (put_record now sub a b)),
        with_sub s sub.id (put_record now sub a b),
      )
  unfolding upsert_subscription
  upsert_lem now sub a b s p q = rw (p, upsert_subscription) (rw (q, upsert_subscription) refl)

  pub record IsPut (now : Time) (requested : Subscription) (s s' : State)
      (r : PutSubscriptionResponse) : Type 0 where
    pub sub : Subscription
    pub index : ℕ
    pub dependent : List EntityId
    pub adjusted :
        IsAdjusted now requested
          (Option.map (subscription_to_model ext) (GoMap.get s.subscriptions requested.id))
          sub
    pub follows : Follows sub (GoMap.get s.subscriptions requested.id) index
    pub covered : Covered s sub (GoMap.get s.subscriptions requested.id)
    pub rec : SubscriptionRecord
    pub is_record :
        rec ≡ put_record now (record sub { notification_index = index }) adjusted.start adjusted.end
    pub tables : s' ≡ with_sub s requested.id rec
    pub answer : r.subscription ≡ subscription_to_rest ext (subscription_to_model ext rec) dependent

  response-answer :
      (m : Manager) (sub : Subscription) (ids : List EntityId) {s s' : State}
      {r : PutSubscriptionResponse}
      → put_response ext m sub ids s ≡ (ok r, s')
      → (r.subscription ≡ subscription_to_rest ext sub ids) × (s' ≡ s)
  unfolding put_response
  response-answer m sub ids h =
      let (ops, e0, h0) =
        Reads-ok (operational_intent_references ext m sub) _ (references-Reads m sub) h in
      let (cs, e1, h1) =
        Reads-ok (constraint_references ext m sub) _ (constraints-Reads m sub) h0 in
      let (e, f) = ok-pair h1 in (sym (ap (λ x. x.subscription) e), sym f)

  -- A creation or an update of a subscription that succeeds in a valid store was of a request with
  -- acceptable times: to create, with no version where no subscription is stored, or to update, by
  -- the manager of the stored subscription and at its version. The subscription of an update covers
  -- every operational intent that depends on it, in cells, altitudes and times, but for five minutes
  -- at the start. It stores the request with the adjusted times, keeps the notification index of an
  -- update, changes nothing else, and answers with the subscription as stored.
  pub execute_put_subscription-IsPut :
      (now : Time) (requested : Subscription) {s s' : State} {r : PutSubscriptionResponse}
      → IsValid s
      → execute_put_subscription ext now requested s ≡ (ok r, s')
      → IsPut now requested s s' r
  unfolding execute_put_subscription
  execute_put_subscription-IsPut now requested {s} {s'} {r} valid h =
      let found = GoMap.get s.subscriptions requested.id in
      let (old, e0, h0) =
        Reads-ok (get_subscription ext requested.id) _ (get_subscription-Reads ext requested.id)
          h in
      let same = (ok-pair (sym e0 ∙ get_subscription_lem requested.id s)).0 in
      let (adj, e1, h1) = Reads-ok (lift (adjust_time_range now requested old)) _ (λ t. refl) h0 in
      let (checked, e2, h2) = Reads-ok (check_put ext adj old) _ (check_put-Reads adj old) h1 in
      let (stored, t, e3, h3) = >>=-ok (upsert_subscription ext now checked.0) _ h2 in
      let a =
        adjust-IsAdjusted now requested (Option.map (subscription_to_model ext) found) adj
          (rw same at (lift-ok _ e1)) in
      let c = check_put-IsChecked s adj found valid (rw same at e2) in
      let (answer, unchanged) = response-answer requested.manager stored checked.1 h3 in
      let written =
        upsert_lem now checked.0 a.start a.end s
          (ap (λ x. x.volume.start_time) (c.fields ∙ ap (with_index c.index) a.result))
          (ap (λ x. x.volume.end_time) (c.fields ∙ ap (with_index c.index) a.result)) in
      let (model, state) = ok-pair (sym e3 ∙ written) in
      record {
        sub = adj;
        index = c.index;
        dependent = checked.1;
        adjusted = a;
        follows = c.follows;
        covered = c.covered;
        rec = put_record now checked.0 a.start a.end;
        is_record = ap (λ x. put_record now x a.start a.end) c.fields;
        tables =
            unchanged
            ∙ state
            ∙ ap (λ i. with_sub s i (put_record now checked.0 a.start a.end))
                (ap (λ x. x.id) (c.fields ∙ ap (with_index c.index) a.result));
        answer = answer ∙ ap (λ x. subscription_to_rest ext x checked.1) model;
      }
    where
      with_index : ℕ → Subscription → Subscription
      with_index n x = record x { notification_index = n }
