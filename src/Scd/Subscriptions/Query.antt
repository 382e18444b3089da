-- ===== src/Scd/Subscriptions/Query.antt =====
-- pkg/scd/operations/subscription.go: `executeQuerySubscriptions`, from the parsed area on.
pub mod Laws
mod Tests
use dss.Prelude.{Bool, true, false, List, [], ◌∷◌, not, ◌==◌, ◌&&◌, if◌then◌else◌}
use dss.Exec.{deref, Exec, pure, lift, ◌>>=◌}
use dss.External.{External, Time}
use dss.Models.{CellsVolume4D, before}
use dss.Scd.Models.{Manager, Subscription}
use dss.Scd.Models.Rest.{RestSubscription, subscription_to_rest}
use dss.Scd.Store.Records.{State}
use dss.Scd.Store.Subscriptions.{search_subscriptions}
use dss.Scd.Store.OperationalIntents.{get_dependent_operational_intents}

module _ (ext : External) (now : Time) (manager : Manager) where
  -- The loop over the subscriptions found: those of the manager that have not expired.
  unfoldable pub list_own : List Subscription → Exec State (List RestSubscription)
  list_own [] = pure []
  list_own (sub ∷ subs) =
      let rest = list_own subs in
      (do
        end ← lift (deref sub.end_time)
        (if not (before end now) && sub.manager == manager
            then (do
              dependent ← get_dependent_operational_intents sub.id
              others ← rest
              pure (subscription_to_rest ext sub dependent ∷ others))
            else rest))

  -- `executeQuerySubscriptions`
  unfoldable pub execute_query_subscriptions : CellsVolume4D → Exec State (List RestSubscription)
  unfolding list_own
  execute_query_subscriptions v = do subs ← search_subscriptions ext v; list_own subs
