-- ===== src/Scd/Store/Subscriptions/Defs.antt =====
-- The operations on subscriptions.
use dss.Prelude.{
  ℕ, ◌+◌, ◌%◌, ◌^◌, Bool, Option, none, some, List, [], ◌∷◌, map, ◌&&◌, collect, length,
  if◌then◌else◌,
}
use dss.GoMap
use dss.GoMap.{GoMap}
use dss.Exec.{ok, err, coded, uncoded, not_implemented, Exec, raise}
use dss.External.{External, Time, CellUnion}
use dss.Models.{CellsVolume4D, max_result_limit}
use dss.Scd.Models.{EntityId, Subscription, new_ovn_from_time}
use dss.Scd.Store.Records.{
  State, SubscriptionRecord, cell_set, overlaps, overlaps_time, list_expired,
}

-- The test of `subscriptionsInCellsVolume`.
unfoldable pub in_cells_volume : CellsVolume4D → SubscriptionRecord → Bool
in_cells_volume v rec =
    overlaps rec.cells (cell_set v.cells) && overlaps_time rec.start_time rec.end_time v

-- `NotificationIndex++`, at the 64 bits of an int.
unfoldable pub bumped : SubscriptionRecord → SubscriptionRecord
bumped rec = record rec { notification_index = (rec.notification_index + 1) % 2 ^ 64 }

module _ (ext : External) where
  -- `subscriptionRecord.toModel`
  unfoldable pub subscription_to_model : SubscriptionRecord → Subscription
  subscription_to_model rec = record {
    id = rec.id;
    version = new_ovn_from_time ext rec.updated_at rec.id;
    notification_index = rec.notification_index;
    manager = rec.manager;
    uss_base_url = rec.uss_base_url;
    notify_for_operational_intents = rec.notify_for_operational_intents;
    notify_for_constraints = rec.notify_for_constraints;
    implicit_subscription = rec.implicit_subscription;
    volume = record {
      cells = rec.cells;
      start_time = some rec.start_time;
      end_time = some rec.end_time;
      altitude_lo = none;
      altitude_hi = none;
    };
  }

  -- `SearchSubscriptions`
  unfoldable pub search_subscriptions : CellsVolume4D → Exec State (List Subscription)
  search_subscriptions v s =
      let found = collect (in_cells_volume v) max_result_limit (GoMap.values s.subscriptions) [] in
      (ok (map subscription_to_model found), s)

  -- `GetSubscription`
  unfoldable pub get_subscription : EntityId → Exec State (Option Subscription)
  get_subscription id s = elim (GoMap.get s.subscriptions id) [
    | none ↦ (ok none, s)
    | some rec ↦ (ok (some (subscription_to_model rec)), s)
  ]

  -- `UpsertSubscription`; `requireExtentTimes` refuses a subscription without both times.
  unfoldable pub upsert_subscription : Time → Subscription → Exec State Subscription
  upsert_subscription now sub s = elim sub.start_time [
    | none ↦ (err uncoded, s)
    | some start ↦ elim sub.end_time [
      | none ↦ (err uncoded, s)
      | some end ↦
          let rec : SubscriptionRecord = record {
            id = sub.id;
            manager = sub.manager;
            notification_index = sub.notification_index;
            uss_base_url = sub.uss_base_url;
            notify_for_operational_intents = sub.notify_for_operational_intents;
            notify_for_constraints = sub.notify_for_constraints;
            implicit_subscription = sub.implicit_subscription;
            start_time = start;
            end_time = end;
            cells = sub.cells;
            updated_at = now;
          } in
          (
            ok (subscription_to_model rec),
            record s { subscriptions = GoMap.set s.subscriptions sub.id rec },
          )
    ]
  ]

  -- The loop of `incrementNotificationIndices`: what it leaves in the map, and what it returns.
  unfoldable pub increment_loop :
      (SubscriptionRecord → Bool)
      → GoMap SubscriptionRecord
      → GoMap SubscriptionRecord × List Subscription
  increment_loop p [] = ([], [])
  increment_loop p ((k, rec) ∷ m) =
      let (m', out) = increment_loop p m in
      if p rec
      then ((k, bumped rec) ∷ m', subscription_to_model (bumped rec) ∷ out)
      else ((k, rec) ∷ m', out)

  -- `incrementNotificationIndices`
  unfoldable pub increment_notification_indices :
      CellsVolume4D → (SubscriptionRecord → Bool) → Exec State (List Subscription)
  increment_notification_indices v notified s =
      let (m, out) =
        increment_loop (λ rec. in_cells_volume v rec && notified rec) s.subscriptions in
      (ok out, record s { subscriptions = m })

  unfoldable pub increment_notification_indices_for_operational_intents :
      CellsVolume4D → Exec State (List Subscription)
  increment_notification_indices_for_operational_intents v =
      increment_notification_indices v (λ rec. rec.notify_for_operational_intents)

  unfoldable pub increment_notification_indices_for_constraints :
      CellsVolume4D → Exec State (List Subscription)
  increment_notification_indices_for_constraints v =
      increment_notification_indices v (λ rec. rec.notify_for_constraints)

-- `DeleteSubscription`
unfoldable pub delete_subscription : EntityId → Exec State (Unit {0})
delete_subscription id s = elim (GoMap.get s.subscriptions id) [
  | none ↦ (err uncoded, s)
  | some rec ↦ (ok tt, record s { subscriptions = GoMap.delete s.subscriptions id })
]

-- `LockSubscriptionsOnCells` does nothing in the memory store.
unfoldable pub lock_subscriptions_on_cells :
    CellUnion → List EntityId → Option Time → Option Time → Exec State (Unit {0})
lock_subscriptions_on_cells cells ids start end s = (ok tt, s)

-- `ListExpiredSubscriptions`
unfoldable pub list_expired_subscriptions : Time → Exec State (List EntityId)
list_expired_subscriptions threshold s =
    let expired =
      list_expired (λ (rec : SubscriptionRecord). rec.end_time) (GoMap.values s.subscriptions)
        threshold max_result_limit [] in
    (ok (map (λ rec. rec.id) expired), s)

-- `DeleteExpiredSubscriptions`
unfoldable pub delete_expired_subscriptions : Time → ℕ → Exec State (List EntityId)
delete_expired_subscriptions threshold limit = raise (coded not_implemented)

-- `CountSubscriptions`
unfoldable pub count_subscriptions : Exec State ℕ
count_subscriptions s = (ok (length s.subscriptions), s)
