-- ===== src/Rid/Subscriptions/Outcome.antt =====
-- What a creation and an update come to: an error that leaves the state, or a stored subscription.
use dss.Prelude.{
  ℕ, ◌≡◌, refl, sym, ap, subst, ◌<◌, ◌⊎◌, inl, inr, true, Option, none, some, [], ◌∷◌, leb, arith,
  Bool-cases, Option-cases, filter,
}
use dss.GoMap
use dss.GoMap.{GoMap}
use dss.Exec.{ok, err, coded, not_found, already_exists, exhausted, ◌>>◌}
use dss.Exec.Laws.{Result-cases}
use dss.Exec.Reads.{Reads, HasFailed, then-Reads, >>=-Reads, failed-bind}
use dss.External.{External, CellUnion, Time}
use dss.Models.Version.{version_from_time, matches}
use dss.Rid.Models.{EntityId, Subscription}
use dss.Rid.Models.TimeRange.{adjust_subscription}
use dss.Rid.Models.TimeRange.Laws.{IsAdjustedSubscription, adjust_subscription_lem}
use dss.Rid.Store.Records.{State, SubscriptionRecord}
use dss.Rid.Store.Isas.{search_isas}
use dss.Rid.Store.Quota.{IsCounted, check-IsCounted, limit}
use dss.Rid.Store.Subscriptions.{
  sub_to_model, get_subscription, delete_subscription, insert_subscription, update_subscription,
  max_subscription_count_in_cells_by_owner, count_records, max_count, is_live_in_cells,
}
use dss.Rid.Store.Subscriptions.Writes.{IsRecordOf, IsStored, insert_lem, update_lem, find_lem}
use dss.Rid.Isa.Access.{access-cases, matches_symm, matches_refl}
use dss.Rid.Subscriptions.{
  DeleteSubscriptionPayload, execute_delete_subscription, max_subscriptions_per_area,
  check_subscription_count, deref_updated, insert_and_search, execute_create_subscription,
  update_and_search, execute_update_subscription,
}

search-Reads :
    (cells : CellUnion) (earliest latest : Option Time) → Reads (search_isas cells earliest latest)
unfolding search_isas
search-Reads [] earliest latest s = refl
search-Reads (c ∷ cells) none latest s = refl
search-Reads (c ∷ cells) (some t) latest s = refl

deref-Reads : (o : Option Subscription) → Reads (deref_updated o)
deref-Reads none s = refl
deref-Reads (some sub) s = refl

module _ (ext : External) (now : Time) where
  -- The number of subscriptions that `checkSubscriptionCount` reads.
  abbrev counted : Subscription → State → ℕ
  counted sub s = max_count (
      count_records sub.cells
        (filter (is_live_in_cells now sub.cells (some sub.owner)) (GoMap.values s.subscriptions))
        [])

  check_lem :
      (sub : Subscription) (s : State)
      → ((check_subscription_count now sub s ≡ (ok tt, s)) × (counted sub s < limit))
        ⊎ (check_subscription_count now sub s ≡ (err (coded exhausted), s))
  unfolding check_subscription_count max_subscription_count_in_cells_by_owner
  check_lem sub s = elim (Bool-cases (leb max_subscriptions_per_area (counted sub s))) [
    | inl e ↦ inr (rw e refl)
    | inr e ↦ inl (rw e refl, ground arith)
  ]

  counted_lem :
      (sub : Subscription) (rec : SubscriptionRecord) (s : State)
      → IsRecordOf now sub rec
      → counted sub s < limit
      → IsCounted now rec s
  counted_lem sub rec s r h = check-IsCounted now rec s (rw (r.cells, r.owner) h)

  -- A creation that does not fail has checked and stored the subscription.
  pub record IsCreated (requested : Subscription) (s s' : State) : Type 0 where
    pub sub : Subscription
    pub adjusted : IsAdjustedSubscription now requested none sub
    pub was_absent : GoMap.get s.subscriptions requested.id ≡ none
    pub stored : IsStored ext now sub s s'
    pub counted : IsCounted now stored.rec s

  insert_and_search_lem :
      (sub : Subscription) (s : State)
      → HasFailed s (insert_and_search ext now sub s)
        ⊎ ((GoMap.get s.subscriptions sub.id ≡ none)
            × IsStored ext now sub s (insert_and_search ext now sub s).1)
  unfolding insert_and_search
  insert_and_search_lem sub s = elim (insert_lem ext now sub s) [
    | inl f ↦ inl (failed-bind (insert_subscription ext now sub) _ s f)
    | inr (g, st) ↦ inr (
      g,
      subst (IsStored ext now sub s)
          (sym (
            then-Reads (insert_subscription ext now sub) _ s (λ ret.
              >>=-Reads (search_isas ret.cells (some now) none) _
                (search-Reads ret.cells (some now) none) (λ isas t. refl))))
          st,
    )
  ]

  pub create-cases :
      (requested : Subscription) (s : State)
      → HasFailed s (execute_create_subscription ext now requested s)
        ⊎ IsCreated requested s (execute_create_subscription ext now requested s).1
  unfolding execute_create_subscription get_subscription
  create-cases requested s = elim (Result-cases (adjust_subscription now requested none)) [
    | inr (e, q) ↦ rw q (inl (refl, e, refl))
    | inl (sub, q) ↦ rw q (elim (Option-cases (GoMap.get s.subscriptions sub.id)) [
      | inr (old, g) ↦ rw (g, get_subscription) (inl (refl, coded already_exists, refl))
      | inl g ↦
          rw (g, get_subscription)
            (elim (check_lem sub s) [
              | inr c ↦ rw c (inl (refl, coded exhausted, refl))
              | inl (c, below) ↦ rw c (elim (insert_and_search_lem sub s) [
                | inl f ↦ inl f
                | inr (g', st) ↦
                    let a = adjust_subscription_lem now requested none sub q in
                    inr (record {
                      sub = sub;
                      adjusted = a;
                      was_absent =
                          subst (λ i. GoMap.get s.subscriptions i ≡ none) (ap (λ x. x.id) a.result)
                            g;
                      stored = st;
                      counted = counted_lem sub st.rec s st.is_record below;
                    })
              ])
            ])
    ])
  ]

  update_and_search_lem :
      (sub : Subscription) (prev : SubscriptionRecord) (s : State)
      → GoMap.get s.subscriptions sub.id ≡ some prev
      → prev.owner ≡ sub.owner
      → matches (some (version_from_time prev.updated_at)) sub.version ≡ true
      → HasFailed s (update_and_search ext now sub s)
        ⊎ IsStored ext now sub s (update_and_search ext now sub s).1
  unfolding update_and_search
  update_and_search_lem sub prev s g o v = elim (update_lem ext now sub prev s g o v) [
    | inl f ↦ inl (failed-bind (update_subscription ext now sub) _ s f)
    | inr (st, r) ↦ inr (
        subst (IsStored ext now sub s)
          (sym (
            then-Reads (update_subscription ext now sub) _ s (λ updated.
              >>=-Reads (deref_updated updated) _ (deref-Reads updated) (λ ret.
                >>=-Reads (search_isas ret.cells (some now) none) _
                  (search-Reads ret.cells (some now) none) (λ isas t. refl)))))
          st)
  ]

  checked_lem :
      (sub : Subscription) (prev : SubscriptionRecord) (s : State)
      → GoMap.get s.subscriptions sub.id ≡ some prev
      → prev.owner ≡ sub.owner
      → matches (some (version_from_time prev.updated_at)) sub.version ≡ true
      → HasFailed s ((check_subscription_count now sub >> update_and_search ext now sub) s)
        ⊎ ((counted sub s < limit)
            × IsStored ext now sub s
                ((check_subscription_count now sub >> update_and_search ext now sub) s).1)
  checked_lem sub prev s g o v = elim (check_lem sub s) [
    | inr c ↦ rw c (inl (refl, coded exhausted, refl))
    | inl (c, below) ↦
        rw c (elim (update_and_search_lem sub prev s g o v) [
          | inl f ↦ inl f
          | inr st ↦ inr (below, st)
        ])
  ]

  -- An update that does not fail has checked and stored the subscription.
  pub record IsUpdated (requested : Subscription) (s s' : State) : Type 0 where
    pub prev : SubscriptionRecord
    pub sub : Subscription
    pub found : GoMap.get s.subscriptions requested.id ≡ some prev
    pub adjusted : IsAdjustedSubscription now requested (some (sub_to_model prev).volume) sub
    pub version : matches requested.version (some (version_from_time prev.updated_at)) ≡ true
    pub owner : prev.owner ≡ requested.owner
    pub stored : IsStored ext now sub s s'
    pub counted : IsCounted now stored.rec s

  pub update-cases :
      (requested : Subscription) (s : State)
      → HasFailed s (execute_update_subscription ext now requested s)
        ⊎ IsUpdated requested s (execute_update_subscription ext now requested s).1
  unfolding execute_update_subscription get_subscription sub_to_model
  update-cases requested s = elim (Option-cases (GoMap.get s.subscriptions requested.id)) [
    | inl g ↦
        rw (g, get_subscription)
          (elim (Result-cases (adjust_subscription now requested none)) [
            | inr (e, q) ↦ rw q (inl (refl, e, refl))
            | inl (sub, q) ↦ rw q (inl (refl, coded not_found, refl))
          ])
    | inr (prev, g) ↦
        rw (g, get_subscription)
          (elim (Result-cases
            (adjust_subscription now requested (some (sub_to_model prev).volume))) [
              | inr (e, q) ↦ rw q (inl (refl, e, refl))
              | inl (sub, q) ↦ rw q (
                  let a =
                    adjust_subscription_lem now requested (some (sub_to_model prev).volume) sub q in
                  elim (access-cases sub.version sub.owner
                    (some (version_from_time prev.updated_at)) prev.owner s) [
                      | inr (e, c) ↦ rw c (inl (refl, e, refl))
                      | inl (c, v, o) ↦
                          rw c
                            (elim (checked_lem sub prev s (rw a.result g) o
                              (matches_symm sub.version _ v)) [
                                | inl f ↦ inl f
                                | inr (below, st) ↦ inr (record {
                                  prev = prev;
                                  sub = sub;
                                  found = g;
                                  adjusted = a;
                                  version = rw a.result at v;
                                  owner = rw a.result at o;
                                  stored = st;
                                  counted = counted_lem sub st.rec s st.is_record below;
                                })
                              ])
                    ])
            ])
  ]

-- A deletion that does not fail has checked and removed the subscription.
pub record IsDeleted (p : DeleteSubscriptionPayload) (s s' : State) : Type 0 where
  pub prev : SubscriptionRecord
  pub found : GoMap.get s.subscriptions p.id ≡ some prev
  pub version : matches p.version (some (version_from_time prev.updated_at)) ≡ true
  pub owner : prev.owner ≡ p.owner
  pub tables : s' ≡ record s { subscriptions = GoMap.delete s.subscriptions prev.id }

delete_lem :
    (prev : SubscriptionRecord) (s : State)
    → GoMap.get s.subscriptions prev.id ≡ some prev
    → delete_subscription (sub_to_model prev) s ≡ (
      ok (some (sub_to_model prev)),
      record s { subscriptions = GoMap.delete s.subscriptions prev.id },
    )
unfolding delete_subscription sub_to_model
delete_lem prev s g =
    rw
      (
        delete_subscription,
        find_lem (sub_to_model prev) prev s g (matches_refl (version_from_time prev.updated_at)),
      )
      refl

-- Records stand under their own ids.
abbrev pub HasIds : State → Type 0
HasIds s =
    (id : EntityId) (rec : SubscriptionRecord)
    → GoMap.get s.subscriptions id ≡ some rec
    → rec.id ≡ id

pub delete-cases :
    (p : DeleteSubscriptionPayload) (s : State)
    → HasIds s
    → HasFailed s (execute_delete_subscription p s)
      ⊎ IsDeleted p s (execute_delete_subscription p s).1
unfolding execute_delete_subscription get_subscription sub_to_model
delete-cases p s ids = elim (Option-cases (GoMap.get s.subscriptions p.id)) [
  | inl g ↦ rw (g, get_subscription) (inl (refl, coded not_found, refl))
  | inr (prev, g) ↦
      rw (g, get_subscription)
        (elim (access-cases p.version p.owner (some (version_from_time prev.updated_at)) prev.owner
          s) [
            | inr (e, c) ↦ rw c (inl (refl, e, refl))
            | inl (c, v, o) ↦
                rw
                  (
                    c,
                    delete_lem prev s (
                        subst (λ i. GoMap.get s.subscriptions i ≡ some prev) (sym (ids p.id prev g))
                          g),
                  )
                  (inr (record { prev = prev; found = g; version = v; owner = o; tables = refl }))
          ])
]
