-- ===== src/Rid/Subscriptions.antt =====
-- pkg/rid/operations/subscription.go, from the payloads on.
pub mod Outcome
pub mod Laws
mod Tests
use dss.Prelude.{ℕ, Bool, Option, none, some, List, [], not, ◌==◌, leb, String, if◌then◌else◌}
use dss.Exec.{
  Result, ok, err, coded, already_exists, bad_request, not_found, exhausted, panic, Exec, pure,
  raise, raise_if, lift, with_code, map_err, bind_result, ◌>>=◌, ◌>>◌,
}
use dss.External.{External, Time}
use dss.Models.{CellsVolume4D}
use dss.Models.Version.{Version}
use dss.Rid.Models.{EntityId, Owner, Isa, Subscription, validate_url}
use dss.Rid.Models.TimeRange.{adjust_subscription}
use dss.Rid.Store.Records.{State}
use dss.Rid.Store.Isas.{search_isas, is_present}
use dss.Rid.Store.Subscriptions.{
  get_subscription, insert_subscription, update_subscription, delete_subscription,
  max_subscription_count_in_cells_by_owner,
}
use dss.Rid.Isa.{or_raise, check_access}

-- Defined in requirement DSS0030.
abbrev pub max_subscriptions_per_area : ℕ
max_subscriptions_per_area = 10

pub record SubscriptionResult : Type 0 where
  pub subscription : Subscription
  pub isas : List Isa

pub record DeleteSubscriptionPayload : Type 0 where
  pub id : EntityId
  pub owner : Owner
  pub version : Option Version

-- `newSubscription`; `scheme` is what `validate_url` takes.
unfoldable pub new_subscription :
    EntityId
    → Owner
    → String
    → String
    → Option Version
    → CellsVolume4D
    → Bool
    → (String → Result String)
    → Result Subscription
new_subscription id owner url writer version extents allow_http scheme =
    bind_result
      (if allow_http then ok tt else map_err (with_code bad_request) (validate_url scheme url))
      (λ _. ok (record {
        id = id;
        url = url;
        notification_index = 0;
        owner = owner;
        version = version;
        writer = writer;
        volume = extents;
      }))

abbrev pub volume_of : Option Subscription → Option CellsVolume4D
volume_of none = none
volume_of (some sub) = some sub.volume

-- `checkSubscriptionCount`
unfoldable pub check_subscription_count : Time → Subscription → Exec State (Unit {0})
check_subscription_count now sub = do
  count ← max_subscription_count_in_cells_by_owner now sub.cells sub.owner
  raise_if (leb max_subscriptions_per_area count) (coded exhausted)

-- `ret.Cells`, of an update that may have returned nil.
abbrev pub deref_updated : Option Subscription → Exec State Subscription
deref_updated none = raise panic
deref_updated (some sub) = pure sub

-- `executeDeleteSubscription`
unfoldable pub execute_delete_subscription :
    DeleteSubscriptionPayload → Exec State (Option Subscription)
execute_delete_subscription payload = do
  found ← get_subscription payload.id
  old ← or_raise found (raise (coded not_found))
  check_access payload.version payload.owner old.version old.owner
  delete_subscription old

module _ (ext : External) where
  -- What follows the checks of a creation.
  unfoldable pub insert_and_search : Time → Subscription → Exec State SubscriptionResult
  insert_and_search now sub = do
    ret ← insert_subscription ext now sub
    isas ← search_isas ret.cells (some now) none
    pure (record { subscription = ret; isas = isas })

  -- `executeCreateSubscription`
  unfoldable pub execute_create_subscription : Time → Subscription → Exec State SubscriptionResult
  unfolding insert_and_search
  execute_create_subscription now requested = do
    sub ← lift (adjust_subscription now requested none)
    old ← get_subscription sub.id
    raise_if (is_present old) (coded already_exists)
    check_subscription_count now sub
    insert_and_search now sub

  -- What follows the checks of an update.
  unfoldable pub update_and_search : Time → Subscription → Exec State SubscriptionResult
  update_and_search now sub = do
    updated ← update_subscription ext now sub
    ret ← deref_updated updated
    isas ← search_isas ret.cells (some now) none
    pure (record { subscription = ret; isas = isas })

  -- `executeUpdateSubscription`; the times are adjusted before the checks.
  unfoldable pub execute_update_subscription : Time → Subscription → Exec State SubscriptionResult
  unfolding update_and_search
  execute_update_subscription now requested = do
    found ← get_subscription requested.id
    sub ← lift (adjust_subscription now requested (volume_of found))
    old ← or_raise found (raise (coded not_found))
    check_access sub.version sub.owner old.version old.owner
    check_subscription_count now sub
    update_and_search now sub
