-- ===== src/Scd/Replica.antt =====
-- pkg/scd/store/raftstore/store.go: `Apply`, which a node of the Raft group of strategic conflict
-- detection runs for a committed proposal, and the node itself. Only proposals that write stand in the
-- log; those that read are served by the read index.
mod Tests
use dss.Prelude.{
  ℕ, zero, suc, ◌≡◌, refl, sym, ap, subst, inl, inr, Bool, true, false, Option, none, some, arith,
  Bool-cases,
}
use dss.Exec.{Result, ok, err, uncoded, is_panic, Exec, raise}
use dss.Exec.Laws.{Result-cases}
use dss.Exec.Keeps.{Keeps}
use dss.External.{External, Time}
use dss.Models.{CellsVolume4D}
use dss.Scd.Models.{EntityId, OperationalIntent, Subscription, Constraint, UssAvailabilityStatus}
use dss.Scd.Store.Records.{State}
use dss.Scd.Store.Valid.{IsValid}
use dss.Scd.Store.Keeps.{
  delete_operational_intent-Keeps, delete_subscription-Keeps, delete_constraint-Keeps,
  increment-Keeps, upsert_operational_intent-Keeps, upsert_subscription-Keeps,
  upsert_constraint-Keeps,
}
use dss.Scd.Store.Availability.{upsert_uss_availability}
use dss.Scd.Store.Subscriptions
use dss.Scd.Store.OperationalIntents
use dss.Scd.Store.Constraints
use dss.Scd.Store.Checkpoint.{Repo, checkpoint, restore, process_commit}
use dss.Scd.Oir.Delete.{delete_operational_intent_reference}
use dss.Scd.Oir.Put.{put_operational_intent_reference}
use dss.Scd.Constraints.{put_constraint, delete_constraint_reference}
use dss.Scd.Subscriptions.{execute_delete_subscription}
use dss.Scd.Subscriptions.Put.{execute_put_subscription}
use dss.Scd.Availability.{set_uss_availability}
use dss.Scd.Run.{
  Request, put_oir, delete_oir, put_subscription, delete_subscription, put_constraint_reference,
  delete_constraint, set_availability, handle, handle-IsValid, upsert_availability-Keeps,
}
use dss.Raft.Consumer.{
  Proposal, EntryData, empty_entry, normal_entry, conf_change_entry, conf_change_v2_entry,
  Consensus, Environment,
}
use dss.Raft.Consumer.Entries.{Log}
use dss.Raft.Consumer.Laws.{entry_effect, replay, IsReplica}
use dss.Raft.Run.{Run, Run-IsAhead}

-- A proposal that writes: a method of the repository, or an operation of the registry.
pub data Command : Type 0 where
  upsert_constraint : Constraint → Command
  remove_constraint : EntityId → Command
  upsert_subscription : Subscription → Command
  remove_subscription : EntityId → Command
  notify_for_operational_intents notify_for_constraints : CellsVolume4D → Command
  upsert_operational_intent : OperationalIntent → Command
  remove_operational_intent : EntityId → Command
  upsert_availability : UssAvailabilityStatus → Command
  registered : Request → Command

-- The error of an operation, without what it answers.
abbrev outcome : {A : Type 0} → Result A → Result (Option (Unit {0}))
outcome (ok a) = ok none
outcome (err e) = err e

abbrev forget : {A : Type 0} → Exec State A → Exec State (Option (Unit {0}))
forget m s = (outcome (m s).0, (m s).1)

-- A committed proposal leaves what its handler left, or what was there before.
commit-IsValid :
    {A : Type 0} (read_only : Bool) (m : Exec State A) (r : Repo)
    → IsValid r.state
    → IsValid (m r.state).1
    → IsValid (process_commit read_only m r).1.state
unfolding process_commit checkpoint restore
commit-IsValid true m r v kept = elim (Result-cases (m r.state).0) [
  | inl (a, h) ↦ rw (h, process_commit) kept
  | inr (e, h) ↦ rw (h, process_commit) kept
]
commit-IsValid false m r v kept = elim (Result-cases (m r.state).0) [
  | inl (a, h) ↦ rw (h, process_commit) kept
  | inr (e, h) ↦ elim (Bool-cases (is_panic e)) [
    | inl p ↦ rw (h, process_commit) (rw p kept)
    | inr p ↦ rw (h, process_commit) (rw p v)
  ]
]

module _ (ext : External) where
  -- `handler.Execute`
  unfoldable pub execute : Time → Request → Exec State (Option (Unit {0}))
  execute now (put_oir m params) = forget (put_operational_intent_reference ext now m params)
  execute now (delete_oir p) = forget (delete_operational_intent_reference ext p)
  execute now (put_subscription sub) = forget (execute_put_subscription ext now sub)
  execute now (delete_subscription p) = forget (execute_delete_subscription ext p)
  execute now (put_constraint_reference c) = forget (put_constraint ext now c)
  execute now (delete_constraint p) = forget (delete_constraint_reference ext p)
  execute now (set_availability p) = forget (set_uss_availability ext now p)

  -- `Apply`, where a request type that is unknown, or a payload that cannot be read, is none.
  unfoldable pub apply : Time → Option Command → Exec State (Option (Unit {0}))
  unfolding execute
  apply now none = raise uncoded
  apply now (some (upsert_constraint c)) = forget (Constraints.upsert_constraint ext now c)
  apply now (some (remove_constraint id)) = forget (Constraints.delete_constraint id)
  apply now (some (upsert_subscription sub)) =
      forget (Subscriptions.upsert_subscription ext now sub)
  apply now (some (remove_subscription id)) = forget (Subscriptions.delete_subscription id)
  apply now (some (notify_for_operational_intents v)) =
      forget (Subscriptions.increment_notification_indices_for_operational_intents ext v)
  apply now (some (notify_for_constraints v)) =
      forget (Subscriptions.increment_notification_indices_for_constraints ext v)
  apply now (some (upsert_operational_intent o)) =
      forget (OperationalIntents.upsert_operational_intent ext now o)
  apply now (some (remove_operational_intent id)) =
      forget (OperationalIntents.delete_operational_intent id)
  apply now (some (upsert_availability a)) = forget (upsert_uss_availability ext now a)
  apply now (some (registered r)) = execute now r

  execute-Keeps : (now : Time) (r : Request) → Keeps IsValid (execute now r)
  unfolding execute handle
  execute-Keeps now (put_oir m params) s v = handle-IsValid ext now (put_oir m params) s v
  execute-Keeps now (delete_oir p) s v = handle-IsValid ext now (delete_oir p) s v
  execute-Keeps now (put_subscription sub) s v = handle-IsValid ext now (put_subscription sub) s v
  execute-Keeps now (delete_subscription p) s v = handle-IsValid ext now (delete_subscription p) s v
  execute-Keeps now (put_constraint_reference c) s v =
      handle-IsValid ext now (put_constraint_reference c) s v
  execute-Keeps now (delete_constraint p) s v = handle-IsValid ext now (delete_constraint p) s v
  execute-Keeps now (set_availability p) s v = handle-IsValid ext now (set_availability p) s v

  apply-Keeps : (now : Time) (c : Option Command) → Keeps IsValid (apply now c)
  unfolding apply Subscriptions.increment_notification_indices_for_operational_intents
      Subscriptions.increment_notification_indices_for_constraints
  apply-Keeps now none s v = v
  apply-Keeps now (some (upsert_constraint c)) s v = upsert_constraint-Keeps ext now c s v
  apply-Keeps now (some (remove_constraint id)) s v = delete_constraint-Keeps id s v
  apply-Keeps now (some (upsert_subscription sub)) s v = upsert_subscription-Keeps ext now sub s v
  apply-Keeps now (some (remove_subscription id)) s v = delete_subscription-Keeps id s v
  apply-Keeps now (some (notify_for_operational_intents a)) s v = increment-Keeps ext a _ s v
  apply-Keeps now (some (notify_for_constraints a)) s v = increment-Keeps ext a _ s v
  apply-Keeps now (some (upsert_operational_intent o)) s v =
      upsert_operational_intent-Keeps ext now o s v
  apply-Keeps now (some (remove_operational_intent id)) s v = delete_operational_intent-Keeps id s v
  apply-Keeps now (some (upsert_availability a)) s v = upsert_availability-Keeps ext now a s v
  apply-Keeps now (some (registered r)) s v = execute-Keeps now r s v

  module _ (decode : Proposal → Option Command) (other : Environment Repo (Unit {0})) where
    -- The node's environment: the store behind `commitC` is `processCommits`.
    unfoldable pub scd_environment : Environment Repo (Unit {0})
    scd_environment = record other {
      serve = λ p r. process_commit p.read_only (apply p.timestamp (decode p)) r;
    }

    effect-IsValid :
        (d : EntryData) (r : Repo)
        → IsValid r.state
        → IsValid (entry_effect scd_environment d r).state
    unfolding scd_environment
    effect-IsValid empty_entry r v = v
    effect-IsValid (normal_entry none) r v = v
    effect-IsValid (normal_entry (some p)) r v =
        commit-IsValid p.read_only (apply p.timestamp (decode p)) r v
          (apply-Keeps p.timestamp (decode p) r.state v)
    effect-IsValid (conf_change_entry cc) r v = v
    effect-IsValid (conf_change_v2_entry cc) r v = v

    replay-IsValid :
        (log : Log) (r : Repo) (n : ℕ)
        → IsValid r.state
        → IsValid (replay scd_environment log r n).state
    replay-IsValid log r zero v = v
    replay-IsValid log r (suc n) v = effect-IsValid (log (suc n)) _ (replay-IsValid log r n v)

    -- In every state of a run of a node, from a replica of a log that begins with a valid store, the
    -- store is valid, whatever the log holds, and whatever of it fails.
    pub node-IsValid :
        (interval : ℕ) (log : Log) (r : Repo) {c d : Consensus Repo (Unit {0})}
        → IsValid r.state
        → IsReplica scd_environment log r c
        → Run scd_environment interval log r c d
        → IsValid d.store.state
    node-IsValid interval log r v replica run =
        let (reached, le) = Run-IsAhead scd_environment interval log r replica run in
        subst (λ x. IsValid x.state) (sym reached.store) (replay-IsValid log r _ v)
