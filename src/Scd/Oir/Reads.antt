-- ===== src/Scd/Oir/Reads.antt =====
-- The steps of the operations that only read.
use dss.Prelude.{
  refl, inl, inr, Bool, true, false, Option, none, some, ◌==◌, Option-cases, Bool-cases, arith,
}
use dss.Exec.Reads.{Reads, >>=-Reads}
use dss.External.{External}
use dss.Scd.Models.{
  EntityId, Manager, UssAvailabilityState, unknown, OperationalIntent, Subscription,
}
use dss.Scd.Store.Availability.{availability_or_default}
use dss.Scd.Store.Subscriptions.{get_subscription}
use dss.Scd.Store.OperationalIntents.{get_operational_intent, get_dependent_operational_intents}
use dss.Scd.Store.OperationalIntents.Laws.{get_operational_intent_lem}
use dss.Scd.Oir.Params.{ValidOirParams, subscription_is_implicit_and_only_attached_to_oir}
use dss.Scd.Oir.Resolve.{
  use_requested, requested_subscription, choose_subscription, resolve_subscription,
  is_being_replaced,
}
use dss.Scd.Oir.Put.{prior_of_old, prior_of_new, prior}

module _ (ext : External) where
  pub get_operational_intent-Reads : (id : EntityId) → Reads (get_operational_intent ext id)
  get_operational_intent-Reads id s = rw get_operational_intent_lem

  pub get_subscription-Reads : (id : EntityId) → Reads (get_subscription ext id)
  unfolding get_subscription
  get_subscription-Reads id s = ground arith

  pub availability_or_default-Reads :
      (m : Manager) (a : UssAvailabilityState) → Reads (availability_or_default ext m a)
  unfolding availability_or_default
  availability_or_default-Reads m a s = ground arith

  pub prior-Reads :
      (m : Manager) (params : ValidOirParams) (old : Option OperationalIntent)
      → Reads (prior ext m params old)
  unfolding prior prior_of_new prior_of_old
  prior-Reads m params none = >>=-Reads _ _ (availability_or_default-Reads m unknown) (λ a s. refl)
  prior-Reads m params (some old) = elim (Option-cases old.subscription_id) [
    | inl e ↦ λ s. rw e
    | inr (id, e) ↦ rw e (>>=-Reads _ _ (get_subscription-Reads id) (λ a s. refl))
  ]

  pub requested-Reads :
      (prev : Option Subscription) (b : Bool) (params : ValidOirParams)
      → Reads (requested_subscription ext prev b params)
  unfolding requested_subscription get_subscription
  requested-Reads (some p) false params s = refl
  requested-Reads (some p) true params s = ground arith
  requested-Reads none b params s = ground arith

  pub use_requested-Reads :
      (prev : Option Subscription) (b : Bool) (m : Manager) (params : ValidOirParams)
      → Reads (use_requested ext prev b m params)
  unfolding use_requested
  use_requested-Reads prev b m params s = ground (arith, requested-Reads prev b params s)

  pub choose-Reads :
      (prev : Option Subscription) (b : Bool) (m : Manager) (params : ValidOirParams)
      → Reads (choose_subscription ext prev b m params)
  unfolding choose_subscription
  choose-Reads prev b m params s = elim (Bool-cases (params.subscription_id == "")) [
    | inl e ↦ rw e (ground arith)
    | inr e ↦ rw e (ground (arith, use_requested-Reads prev b m params s))
  ]

pub only_attached-Reads :
    (id : EntityId) (sub : Option Subscription)
    → Reads (subscription_is_implicit_and_only_attached_to_oir id sub)
unfolding subscription_is_implicit_and_only_attached_to_oir get_dependent_operational_intents
only_attached-Reads id none s = refl
only_attached-Reads id (some sub) s = elim (Bool-cases sub.implicit_subscription) [
  | inl e ↦ rw e refl
  | inr e ↦ rw e refl
]

pub resolve-Reads :
    (ext : External) (prev : Option Subscription) (m : Manager) (params : ValidOirParams)
    → Reads (resolve_subscription ext prev m params)
unfolding resolve_subscription
resolve-Reads ext prev m params s = elim (Bool-cases (is_being_replaced prev params)) [
  | inl e ↦
      rw e (
        ground (arith, only_attached-Reads params.id prev s, choose-Reads ext prev true m params s))
  | inr e ↦ rw e (ground (arith, choose-Reads ext prev false m params s))
]
