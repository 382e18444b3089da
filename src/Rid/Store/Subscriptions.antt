-- ===== src/Rid/Store/Subscriptions.antt =====
-- subscriptions.go
pub mod Count
pub mod Writes
use Prim.Native.Nat.{max}
use dss.Prelude.{
  ℕ, suc, ◌+◌, ◌%◌, ◌^◌, Bool, true, false, Option, none, some, List, [], ◌∷◌, ◌&&◌, not, map, any,
  filter, collect, length, nat_eq, ◌==◌, if◌then◌else◌,
}
use dss.GoMap
use dss.Exec.{
  Result, ok, err, coded, uncoded, bad_request, not_implemented, Exec, pure, raise, raise_if, lift,
  gets, bind_result, deref, ◌>>=◌, ◌>>◌,
}
use dss.External.{External, CellUnion, Time}
use dss.Models.{max_result_limit, before}
use dss.Models.Version.{version_from_time}
use dss.Rid.Models.{EntityId, Owner, Subscription}
use dss.Rid.Store.Records.{
  State, SubscriptionRecord, cell_set, overlaps, validate_write_data, find_for_write, list_expired,
}
use dss.Rid.Store.Isas.{is_present}

-- `subRecordFromModel`, which reads both times.
unfoldable pub sub_record_from_model : Subscription → Time → Result SubscriptionRecord
sub_record_from_model sub updated_at = bind_result (deref sub.start_time) (λ start.
    bind_result (deref sub.end_time) (λ end. ok (record {
      id = sub.id;
      url = sub.url;
      notification_index = sub.notification_index;
      owner = sub.owner;
      cells = sub.cells;
      start_time = start;
      end_time = end;
      altitude_hi = sub.altitude_hi;
      altitude_lo = sub.altitude_lo;
      writer = sub.writer;
      updated_at = updated_at;
    })))

-- `subscriptionRecord.toModel`
unfoldable pub sub_to_model : SubscriptionRecord → Subscription
sub_to_model rec = record {
  id = rec.id;
  url = rec.url;
  notification_index = rec.notification_index;
  owner = rec.owner;
  version = some (version_from_time rec.updated_at);
  writer = rec.writer;
  volume = record {
    cells = rec.cells;
    start_time = some rec.start_time;
    end_time = some rec.end_time;
    altitude_lo = rec.altitude_lo;
    altitude_hi = rec.altitude_hi;
  };
}

-- `GetSubscription`
unfoldable pub get_subscription : EntityId → Exec State (Option Subscription)
get_subscription id s = elim (GoMap.get s.subscriptions id) [
  | none ↦ (ok none, s)
  | some rec ↦ (ok (some (sub_to_model rec)), s)
]

-- `r.state.Subscriptions[id] = rec`, and the model that is returned.
unfoldable pub put_subscription : EntityId → SubscriptionRecord → Exec State Subscription
put_subscription id rec s =
    (ok (sub_to_model rec), record s { subscriptions = GoMap.set s.subscriptions id rec })

-- `UpdateSubscription` from its second test on: the owner of the stored subscription stays.
unfoldable pub overwrite_subscription :
    Time → Subscription → Option SubscriptionRecord → Exec State (Option Subscription)
unfolding put_subscription
overwrite_subscription now sub none = pure none
overwrite_subscription now sub (some prev) = do
  rec ← lift (sub_record_from_model sub now)
  stored ← put_subscription sub.id (record rec { owner = prev.owner })
  pure (some stored)

module _ (ext : External) where
  -- `InsertSubscription`
  unfoldable pub insert_subscription : Time → Subscription → Exec State Subscription
  insert_subscription now sub = do
    lift (validate_write_data ext sub.cells sub.start_time sub.end_time)
    stored ← gets (λ (s : State). GoMap.get s.subscriptions sub.id)
    raise_if (is_present stored) uncoded
    rec ← lift (sub_record_from_model sub now)
    put_subscription sub.id rec

  -- `UpdateSubscription`
  unfoldable pub update_subscription : Time → Subscription → Exec State (Option Subscription)
  update_subscription now sub = do
    lift (validate_write_data ext sub.cells sub.start_time sub.end_time)
    prev ← gets (λ (s : State).
        find_for_write (λ (rec : SubscriptionRecord). rec.updated_at) s.subscriptions sub.id
          sub.version)
    overwrite_subscription now sub prev

-- `DeleteSubscription`
unfoldable pub delete_subscription : Subscription → Exec State (Option Subscription)
delete_subscription sub s =
    elim (find_for_write (λ (rec : SubscriptionRecord). rec.updated_at) s.subscriptions sub.id
      sub.version) [
        | none ↦ (ok none, s)
        | some rec ↦ (
          ok (some (sub_to_model rec)),
          record s { subscriptions = GoMap.delete s.subscriptions sub.id },
        )
      ]

unfoldable pub is_owner : Option Owner → SubscriptionRecord → Bool
is_owner none rec = true
is_owner (some owner) rec = rec.owner == owner

-- The filters of `liveSubscriptionsInCells`.
unfoldable pub is_live_in_cells : Time → CellUnion → Option Owner → SubscriptionRecord → Bool
unfolding overlaps is_owner
is_live_in_cells now cells owner rec =
    is_owner owner rec && not (before rec.end_time now) && overlaps rec.cells (cell_set cells)

-- `searchSubscriptions`, which stops when it has more than the limit.
unfoldable pub search_subscriptions :
    Time → CellUnion → Option Owner → Exec State (List Subscription)
search_subscriptions now [] owner = raise (coded bad_request)
search_subscriptions now (c ∷ cells) owner = gets (λ (s : State). map sub_to_model (
    collect (is_live_in_cells now (c ∷ cells) owner) (suc max_result_limit)
      (GoMap.values s.subscriptions) []))

-- `NotificationIndex++`, at the 64 bits of an int.
unfoldable pub bumped : SubscriptionRecord → SubscriptionRecord
bumped rec = record rec { notification_index = (rec.notification_index + 1) % 2 ^ 64 }

-- `UpdateNotificationIdxsInCells`
unfoldable pub update_notification_idxs_in_cells : Time → CellUnion → Exec State (List Subscription)
update_notification_idxs_in_cells now cells s =
    let live = is_live_in_cells now cells none in
    (
      ok (map (λ rec. sub_to_model (bumped rec)) (filter live (GoMap.values s.subscriptions))),
      record s { subscriptions = GoMap.modify_where live bumped s.subscriptions },
    )

-- A map from cells to counts.
abbrev pub Counts : Type 0
Counts = List (ℕ × ℕ)

-- `counts[c]++`
unfoldable pub increment : Counts → ℕ → Counts
increment [] c = (c, 1) ∷ []
increment ((d, n) ∷ counts) c =
    if nat_eq d c then (d, n + 1) ∷ counts else (d, n) ∷ increment counts c

-- The inner loop of `MaxSubscriptionCountInCellsByOwner`.
unfoldable pub count_cells : List ℕ → CellUnion → Counts → Counts
count_cells want [] counts = counts
count_cells want (c ∷ cells) counts =
    count_cells want cells (if any (nat_eq c) want then increment counts c else counts)

-- The outer loop.
unfoldable pub count_records : List ℕ → List SubscriptionRecord → Counts → Counts
count_records want [] counts = counts
count_records want (rec ∷ recs) counts = count_records want recs (count_cells want rec.cells counts)

-- `slices.Max` of the counts, or 0.
unfoldable pub max_count : Counts → ℕ
max_count [] = 0
max_count ((c, n) ∷ counts) = max n (max_count counts)

-- `MaxSubscriptionCountInCellsByOwner`
unfoldable pub max_subscription_count_in_cells_by_owner : Time → CellUnion → Owner → Exec State ℕ
max_subscription_count_in_cells_by_owner now cells owner = gets (λ (s : State). max_count (
    count_records (cell_set cells)
      (filter (is_live_in_cells now cells (some owner)) (GoMap.values s.subscriptions)) []))

-- `ListExpiredSubscriptions`, without a limit
unfoldable pub list_expired_subscriptions : Time → Exec State (List EntityId)
list_expired_subscriptions threshold = gets (λ (s : State).
    list_expired (λ (rec : SubscriptionRecord). rec.end_time) s.subscriptions threshold 0 [])

-- `DeleteExpiredSubscriptions`
unfoldable pub delete_expired_subscriptions : Time → ℕ → Exec State (List EntityId)
delete_expired_subscriptions threshold limit = raise (coded not_implemented)

-- `CountSubscriptions`
unfoldable pub count_subscriptions : Exec State ℕ
count_subscriptions = gets (λ (s : State). length s.subscriptions)
