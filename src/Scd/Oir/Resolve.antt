-- ===== src/Scd/Oir/Resolve.antt =====
-- `ensureSubscriptionCoversOIR` and `resolveSubscription`
pub mod Laws
use dss.Prelude.{Bool, true, false, Option, none, some, [], ◌∷◌, not, ◌==◌, ◌||◌, if◌then◌else◌}
use dss.Exec.{
  Result, ok, err, coded, bad_request, permission_denied, Exec, pure, raise, raise_if, lift, deref,
  bind_result, ◌>>=◌, ◌>>◌,
}
use dss.External.{External}
use dss.Models.{CellsVolume4D, after, before}
use dss.Scd.Models.{Manager, Subscription}
use dss.Scd.Store.Records.{State}
use dss.Scd.Store.Subscriptions.{get_subscription}
use dss.Scd.Oir.Params.{
  ValidOirParams, new_implicit_subscription, subscription_is_implicit_and_only_attached_to_oir,
}

-- A subscription, and whether it was changed.
abbrev pub Changed : Type 0
Changed = Subscription × Bool

-- An implicit subscription is given the new volume, another is refused.
abbrev pub extend : Subscription → CellsVolume4D → Result Changed
extend sub v =
    if sub.implicit_subscription
    then ok (record sub { volume = v }, true)
    else err (coded bad_request)

unfoldable pub cover_start : Subscription → ValidOirParams → Result Changed
cover_start sub params = elim sub.start_time [
  | none ↦ ok (sub, false)
  | some s ↦ bind_result (deref params.volume.start_time) (λ t.
      if after s t
      then extend sub (record sub.volume { start_time = params.volume.start_time })
      else ok (sub, false))
]

unfoldable pub cover_end : Subscription → ValidOirParams → Result Changed
cover_end sub params = elim sub.end_time [
  | none ↦ ok (sub, false)
  | some e ↦ bind_result (deref params.volume.end_time) (λ t.
      if before e t
      then extend sub (record sub.volume { end_time = params.volume.end_time })
      else ok (sub, false))
]

-- What `resolveSubscription` returns.
pub record Resolved : Type 0 where
  pub attached_sub : Option Subscription
  pub upsert_attached_sub : Bool
  pub remove_previous_implicit_subscription : Bool

-- `previousSub != nil && validParams.SubscriptionID != previousSub.ID`
unfoldable pub is_being_replaced : Option Subscription → ValidOirParams → Bool
is_being_replaced none params = false
is_being_replaced (some prev) params = not (params.subscription_id == prev.id)

module _ (ext : External) where
  unfoldable pub cover_cells : Subscription → ValidOirParams → Result Changed
  cover_cells sub params =
      if not (ext.contains sub.cells params.volume.cells)
      then extend sub (record sub.volume {
        cells = ext.cell_union_from_union (sub.cells ∷ params.volume.cells ∷ []);
      })
      else ok (sub, false)

  -- `ensureSubscriptionCoversOIR`: the three parts in turn, each on the subscription as the ones
  -- before left it.
  unfoldable pub ensure_subscription_covers_oir : Subscription → ValidOirParams → Result Changed
  ensure_subscription_covers_oir sub params = bind_result (cover_start sub params) (λ a.
      bind_result (cover_end a.0 params)
        (λ b. bind_result (cover_cells b.0 params) (λ c. ok (c.0, a.1 || (b.1 || c.1)))))

  -- The requested subscription: the previous one, unless there is none or it is being replaced.
  unfoldable pub requested_subscription :
      Option Subscription → Bool → ValidOirParams → Exec State Subscription
  requested_subscription (some prev) false params = pure prev
  requested_subscription _ _ params = do
    found ← get_subscription ext params.subscription_id
    elim found [ none ↦ raise (coded bad_request) | some sub ↦ pure sub ]

  -- The branch for a request with a subscription id.
  unfoldable pub use_requested :
      Option Subscription → Bool → Manager → ValidOirParams → Exec State Changed
  unfolding requested_subscription
  use_requested prev replaced manager params = do
    sub ← requested_subscription prev replaced params
    raise_if (not (sub.manager == manager)) (coded permission_denied)
    lift (ensure_subscription_covers_oir sub params)

  -- The subscription to attach, and whether it was made or changed: a request with no subscription
  -- id makes an implicit one or detaches.
  unfoldable pub choose_subscription :
      Option Subscription
      → Bool
      → Manager
      → ValidOirParams
      → Exec State (Option Subscription × Bool)
  unfolding use_requested
  choose_subscription prev replaced manager params =
      if params.subscription_id == ""
      then (if not (params.implicit_subscription.id == "")
          then pure (some (new_implicit_subscription params manager), true)
          else pure (none, false))
      else (do
        changed ← use_requested prev replaced manager params
        pure (some changed.0, changed.1))

  -- `resolveSubscription`
  unfoldable pub resolve_subscription :
      Option Subscription → Manager → ValidOirParams → Exec State Resolved
  unfolding is_being_replaced choose_subscription
  resolve_subscription prev manager params = do
    let replaced = is_being_replaced prev params
    remove ←
        (if replaced
          then subscription_is_implicit_and_only_attached_to_oir params.id prev
          else pure false)
    chosen ← choose_subscription prev replaced manager params
    pure (record {
      attached_sub = chosen.0;
      upsert_attached_sub = chosen.1;
      remove_previous_implicit_subscription = remove;
    })
