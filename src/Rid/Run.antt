-- ===== src/Rid/Run.antt =====
-- Runs of the remote identification service: the operations of the registry, at times that do not
-- decrease. An operation that fails leaves what it wrote before, or, where the store restores its
-- checkpoint (`processCommits` of pkg/raftstore/store.go), the state before it, as if it had not been
-- in the run.
mod Tests
use dss.Prelude.{ℕ, ◌≡◌, ◌≤◌, arith, filter}
use dss.External.{External, Time}
use dss.Rid.Models.{Isa, Subscription}
use dss.Rid.Store.Records.{State, initial_state}
use dss.Rid.Store.Keeps.{IsValid, initial-IsValid}
use dss.Rid.Store.Quota.{IsWithinQuota, later-IsWithinQuota, holds, limit}
use dss.Rid.Isa.{DeleteIsaPayload, execute_insert_isa, execute_update_isa, execute_delete_isa}
use dss.Rid.Isa.Laws
use dss.Rid.Isa.Quota
use dss.Rid.Subscriptions.{
  DeleteSubscriptionPayload, execute_create_subscription, execute_update_subscription,
  execute_delete_subscription,
}
use dss.Rid.Subscriptions.Laws as SubscriptionLaws

-- The payloads that the registry knows.
pub data Request : Type 0 where
  insert_isa update_isa : Isa → Request
  delete_isa : DeleteIsaPayload → Request
  create_subscription update_subscription : Subscription → Request
  delete_subscription : DeleteSubscriptionPayload → Request

module _ (ext : External) where
  -- The state after the handler of a request.
  unfoldable pub handle : Time → Request → State → State
  handle now (insert_isa isa) s = (execute_insert_isa ext now isa s).1
  handle now (update_isa isa) s = (execute_update_isa ext now isa s).1
  handle now (delete_isa p) s = (execute_delete_isa now p s).1
  handle now (create_subscription sub) s = (execute_create_subscription ext now sub s).1
  handle now (update_subscription sub) s = (execute_update_subscription ext now sub s).1
  handle now (delete_subscription p) s = (execute_delete_subscription p s).1

  -- The states that requests lead to, with the time of the last one.
  pub data Run : Time → State → Type 0 where
    begin : (t : Time) → Run t initial_state
    next :
        {t : Time} {s : State}
        → Run t s
        → (now : Time) → t ≤ now
        → (r : Request) → Run now (handle now r s)

  handle-IsValid :
      (now : Time) (r : Request) (s : State) → IsValid ext s → IsValid ext (handle now r s)
  unfolding handle
  handle-IsValid now (insert_isa isa) s v = Laws.insert-IsValid ext now s v isa
  handle-IsValid now (update_isa isa) s v = Laws.update-IsValid ext now s v isa
  handle-IsValid now (delete_isa p) s v = Laws.delete-IsValid ext now s v p
  handle-IsValid now (create_subscription sub) s v = SubscriptionLaws.create-IsValid ext now sub s v
  handle-IsValid now (update_subscription sub) s v = SubscriptionLaws.update-IsValid ext now sub s v
  handle-IsValid now (delete_subscription p) s v = SubscriptionLaws.delete-IsValid ext now p s v

  handle-IsWithinQuota :
      (now : Time) (r : Request) (s : State)
      → IsValid ext s
      → IsWithinQuota now s
      → IsWithinQuota now (handle now r s)
  unfolding handle
  handle-IsWithinQuota now (insert_isa isa) s v q = Quota.insert-IsWithinQuota ext now s q isa
  handle-IsWithinQuota now (update_isa isa) s v q = Quota.update-IsWithinQuota ext now s q isa
  handle-IsWithinQuota now (delete_isa p) s v q = Quota.delete-IsWithinQuota ext now s q v p
  handle-IsWithinQuota now (create_subscription sub) s v q =
      SubscriptionLaws.create-IsWithinQuota ext now sub s q
  handle-IsWithinQuota now (update_subscription sub) s v q =
      SubscriptionLaws.update-IsWithinQuota ext now sub s q
  handle-IsWithinQuota now (delete_subscription p) s v q =
      SubscriptionLaws.delete-IsWithinQuota ext now p s v q

  initial-IsWithinQuota : (t : Time) → IsWithinQuota t initial_state
  unfolding filter
  initial-IsWithinQuota t = record { within = λ owner c. omega arith }

  -- In every state of a run, each table holds a key once, each record stands under its own id, and
  -- each has one or more cells, all of level 13, and starts before it ends.
  pub Run-IsValid : {t : Time} {s : State} → Run t s → IsValid ext s
  Run-IsValid (begin t) = initial-IsValid ext
  Run-IsValid (next {s} run now le r) = handle-IsValid now r s (Run-IsValid run)

  -- In every state of a run, no owner has more than ten subscriptions in a cell that have not expired
  -- at the time of the last request.
  pub Run-IsWithinQuota : {t : Time} {s : State} → Run t s → IsWithinQuota t s
  Run-IsWithinQuota (begin t) = initial-IsWithinQuota t
  Run-IsWithinQuota (next {t} {s} run now le r) =
      handle-IsWithinQuota now r s (Run-IsValid run)
        (later-IsWithinQuota t now s le (Run-IsWithinQuota run))
