-- ===== src/Scd/Models/Rest.antt =====
-- The REST values that the operations return (pkg/api/scdv1/types.gen.go), and the `ToRest`
-- conversions of pkg/scd/models.
use dss.Prelude.{ℕ, String, Bool, Option, none, some, List, [], ◌∷◌, ◌++◌, map}
use dss.GoMap
use dss.GoMap.{GoMap}
use dss.External.{External, Time}
use dss.Scd.Models.Defs.{
  EntityId, Manager, Ovn, VersionNumber, OperationalIntentState, UssAvailabilityState, unknown,
  OperationalIntent, Subscription, Constraint,
}

-- `restapi.Time`
pub record RestTime : Type 0 where
  pub value : String
  pub format : String

abbrev pub null_v4_uuid : EntityId
null_v4_uuid = "00000000-0000-4000-8000-000000000000"

pub record OperationalIntentReference : Type 0 where
  pub id : EntityId
  pub ovn : Ovn
  pub manager : Manager
  pub version : VersionNumber
  pub uss_base_url : String
  pub subscription_id : EntityId
  pub state : OperationalIntentState
  pub uss_availability : UssAvailabilityState
  pub time_start : RestTime
  pub time_end : RestTime

pub record ConstraintReference : Type 0 where
  pub id : EntityId
  pub ovn : Ovn
  pub manager : Manager
  pub version : VersionNumber
  pub uss_base_url : String
  pub uss_availability : UssAvailabilityState
  pub time_start : RestTime
  pub time_end : RestTime

pub record RestSubscription : Type 0 where
  pub id : EntityId
  pub version : String
  pub notification_index : ℕ
  pub uss_base_url : String
  pub notify_for_operational_intents : Bool
  pub notify_for_constraints : Bool
  pub implicit_subscription : Bool
  pub time_start : Option RestTime
  pub time_end : Option RestTime
  pub dependent_operational_intents : List EntityId

pub record SubscriptionState : Type 0 where
  pub subscription_id : EntityId
  pub notification_index : ℕ

pub record SubscriberToNotify : Type 0 where
  pub uss_base_url : String
  pub subscriptions : List SubscriptionState

module _ (ext : External) where
  abbrev pub rest_time : Time → RestTime
  rest_time t = record { value = ext.format t; format = "RFC3339" }

  -- The time of a nil pointer is the zero value of `restapi.Time`.
  abbrev pub rest_time_or_zero : Option Time → RestTime
  rest_time_or_zero none = record { value = ""; format = "" }
  rest_time_or_zero (some t) = rest_time t

  abbrev pub rest_time_or_nil : Option Time → Option RestTime
  rest_time_or_nil none = none
  rest_time_or_nil (some t) = some (rest_time t)

  -- `OperationalIntent.ToRest`
  unfoldable pub operational_intent_to_rest : OperationalIntent → OperationalIntentReference
  operational_intent_to_rest o = record {
    id = o.id;
    ovn = o.ovn;
    manager = o.manager;
    version = o.version;
    uss_base_url = o.uss_base_url;
    subscription_id = elim o.subscription_id [ none ↦ null_v4_uuid | some sub ↦ sub ];
    state = o.state;
    uss_availability = o.uss_availability;
    time_start = rest_time_or_zero o.start_time;
    time_end = rest_time_or_zero o.end_time;
  }

  -- `Constraint.ToRest`
  unfoldable pub constraint_to_rest : Constraint → ConstraintReference
  constraint_to_rest c = record {
    id = c.id;
    ovn = c.ovn;
    manager = c.manager;
    version = c.version;
    uss_base_url = c.uss_base_url;
    uss_availability = unknown;
    time_start = rest_time_or_zero c.start_time;
    time_end = rest_time_or_zero c.end_time;
  }

  -- `Subscription.ToRest`, which never fails.
  unfoldable pub subscription_to_rest : Subscription → List EntityId → RestSubscription
  subscription_to_rest sub dependent = record {
    id = sub.id;
    version = sub.version;
    notification_index = sub.notification_index;
    uss_base_url = sub.uss_base_url;
    notify_for_operational_intents = sub.notify_for_operational_intents;
    notify_for_constraints = sub.notify_for_constraints;
    implicit_subscription = sub.implicit_subscription;
    time_start = rest_time_or_nil sub.start_time;
    time_end = rest_time_or_nil sub.end_time;
    dependent_operational_intents = dependent;
  }

abbrev states_of : Option (List SubscriptionState) → List SubscriptionState
states_of none = []
states_of (some states) = states

-- The first loop of `makeSubscribersToNotify` (pkg/scd/operations/registry.go): the states by URL.
unfoldable pub group_by_url :
    List Subscription → GoMap (List SubscriptionState) → GoMap (List SubscriptionState)
group_by_url [] m = m
group_by_url (sub ∷ subs) m =
    let sub_state : SubscriptionState = record {
      subscription_id = sub.id;
      notification_index = sub.notification_index;
    } in
    group_by_url subs
      (GoMap.set m sub.uss_base_url (states_of (GoMap.get m sub.uss_base_url) ++ sub_state ∷ []))

-- `makeSubscribersToNotify`
unfoldable pub make_subscribers_to_notify : List Subscription → List SubscriberToNotify
unfolding group_by_url
make_subscribers_to_notify subs =
    map (λ e. record { uss_base_url = e.0; subscriptions = e.1 }) (group_by_url subs [])
