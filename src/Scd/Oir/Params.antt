-- ===== src/Scd/Oir/Params.antt =====
-- The validated parameters of an upsert, and the checks made against a previous operational intent.
use dss.Prelude.{
  String, Bool, true, false, Option, none, some, List, [], ◌∷◌, not, ◌==◌, any, if◌then◌else◌,
}
use dss.Exec.{
  Result, ok, err, coded, uncoded, permission_denied, version_mismatch, not_found, Exec, pure,
  ◌>>=◌,
}
use dss.Models.{CellsVolume4D}
use dss.Scd.Models.{
  EntityId, Manager, Ovn, VersionNumber, OperationalIntentState, OperationalIntent, Subscription,
}
use dss.Scd.Store.Records.{State}
use dss.Scd.Store.OperationalIntents.{get_dependent_operational_intents}

-- The field `ImplicitSubscription` of `validOIRParams`.
pub record ImplicitParams : Type 0 where
  pub id : EntityId
  pub base_url : String
  pub for_constraints : Bool

-- `validOIRParams`; the keys of the map `Key` as a list.
pub record ValidOirParams : Type 0 where
  pub id : EntityId
  pub ovn : Ovn
  pub new_ovn : Ovn
  pub state : OperationalIntentState
  pub volume : CellsVolume4D
  pub subscription_id : EntityId
  pub uss_base_url : String
  pub implicit_subscription : ImplicitParams
  pub key : List Ovn

-- `_, ok := params.Key[ovn]`
unfoldable pub in_key : ValidOirParams → Ovn → Bool
unfolding any
in_key params ovn = any (λ k. k == ovn) params.key

-- `toOIR`; the upsert sets `UssAvailability`, which is left out of the literal.
unfoldable pub to_oir :
    ValidOirParams → Manager → Option Subscription → VersionNumber → List Ovn → OperationalIntent
to_oir vp manager attached version past_ovns = record {
  id = vp.id;
  manager = manager;
  uss_availability = "";
  version = version;
  state = vp.state;
  ovn = vp.new_ovn;
  past_ovns = past_ovns;
  uss_base_url = vp.uss_base_url;
  subscription_id = elim attached [ none ↦ none | some sub ↦ some sub.id ];
  volume = vp.volume;
}

-- `newImplicitSubscription`
unfoldable pub new_implicit_subscription : ValidOirParams → Manager → Subscription
new_implicit_subscription vp manager = record {
  id = vp.implicit_subscription.id;
  version = "";
  notification_index = 0;
  manager = manager;
  uss_base_url = vp.implicit_subscription.base_url;
  notify_for_operational_intents = true;
  notify_for_constraints = vp.implicit_subscription.for_constraints;
  implicit_subscription = true;
  volume = vp.volume;
}

-- `validateUpsertRequestAgainstPreviousOIR`
unfoldable pub validate_upsert_request_against_previous_oir :
    Manager → Ovn → Option OperationalIntent → Result (Unit {0})
validate_upsert_request_against_previous_oir manager ovn (some old) =
    if not (old.manager == manager)
    then err (coded permission_denied)
    else if not (old.ovn == ovn)
    then err (coded version_mismatch)
    else ok tt
validate_upsert_request_against_previous_oir manager ovn none =
    if not (ovn == "") then err (coded not_found) else ok tt

-- The test on the dependent operational intents of an implicit subscription.
unfoldable pub only_dependent : EntityId → List EntityId → Result Bool
only_dependent id [] = err uncoded
only_dependent id (d ∷ []) = ok (d == id)
only_dependent id (d ∷ e ∷ ds) = ok false

-- `SubscriptionIsImplicitAndOnlyAttachedToOIR`
unfoldable pub subscription_is_implicit_and_only_attached_to_oir :
    EntityId → Option Subscription → Exec State Bool
unfolding only_dependent
subscription_is_implicit_and_only_attached_to_oir id none = pure false
subscription_is_implicit_and_only_attached_to_oir id (some sub) =
    if not sub.implicit_subscription then pure false else do
      dependent ← get_dependent_operational_intents sub.id
      λ s. (only_dependent id dependent, s)
