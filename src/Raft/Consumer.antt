-- ===== src/Raft/Consumer.antt =====
-- pkg/raftstore/consensus/consensus.go: the goroutine that takes the updates of the Raft library, one
-- after the other, and applies what has been committed.
pub mod Entries
pub mod Wakes
pub mod Reads
pub mod Laws
pub mod Serves
pub mod Changes
pub mod Tests
use dss.Prelude.{
  ℕ, zero, suc, ◌+◌, ◌-◌, ◌%◌, ◌^◌, String, Bool, true, false, Option, none, some, List, [], ◌∷◌,
  ◌++◌, not, nat_eq, ltb, leb, length, if◌then◌else◌,
}
use dss.Exec.{
  Result, ok, err, coded, uncoded, bad_request, err_self_removed, panic, has_panicked, bind_result,
  Exec, pure, raise, raise_if, lift, gets, modify, when, ◌>>=◌, ◌>>◌,
}
use dss.External.{Time}
use dss.Raft.NodeMap.{NodeId, NodeMap}
use dss.Raft.Proposals.{ProposalsTracker, ProposalResult}
use dss.Raft.Proposals
use dss.Raft.Reads.{ReadIndexTracker, set_index, release_up_to}
use dss.Raft.Membership.{
  Member, Membership, ConfChangeType, conf_change_add_node, conf_change_remove_node,
  conf_change_update_node, conf_change_add_learner_node, ConfChangeSingle, add_node, remove_node,
  restore, validate_conf_change,
}

-- `Proposal`, without the node that made it, which nothing reads.
pub record Proposal : Type 0 where
  pub id : String
  pub timestamp : Time
  pub request_type : String
  pub value : String
  pub read_only : Bool

-- `raftpb.ConfChange`, with the member of its context, if that can be read.
pub record ConfChange : Type 0 where
  pub change : ConfChangeSingle
  pub member : Option Member

-- `confChangeContext`
pub record ConfChangeContext : Type 0 where
  pub id : String
  pub member : Member

-- The context of a change that has none.
abbrev empty_context : ConfChangeContext
empty_context = record { id = ""; member = record { url = "" } }

-- The context of a change, where it can be read.
abbrev pub read_context : Option (Option ConfChangeContext) → Result ConfChangeContext
read_context none = ok empty_context
read_context (some none) = err uncoded
read_context (some (some cctx)) = ok cctx

-- `raftpb.ConfChangeV2`, with its context: none, or one that may not be readable.
pub record ConfChangeV2 : Type 0 where
  pub changes : List ConfChangeSingle
  pub context : Option (Option ConfChangeContext)

-- The types of an entry, with what its data are read as; `none` are data that cannot be read.
pub data EntryData : Type 0 where
  empty_entry : EntryData
  normal_entry : Option Proposal → EntryData
  conf_change_entry : Option ConfChange → EntryData
  conf_change_v2_entry : Option ConfChangeV2 → EntryData

-- `raftpb.Entry`
pub record Entry : Type 0 where
  pub index : ℕ
  pub data_ : EntryData

-- `raft.ReadState`
pub record ReadState : Type 0 where
  pub request_ctx : String
  pub index : ℕ

-- The data of a snapshot.
pub record Snapshot : Type 0 where
  pub members : NodeMap Member
  pub removed_ids : List NodeId
  pub app_data : String

-- A received snapshot, with what its data are read as.
pub record SnapshotUpdate : Type 0 where
  pub index : ℕ
  pub snapshot : Option Snapshot

-- `raft.Ready`, without the messages.
pub record Update : Type 0 where
  pub snapshot : Option SnapshotUpdate
  pub committed_entries : List Entry
  pub read_states : List ReadState

-- The fields of `Consensus` that the consumer writes, and the store that it commits to.
pub record Consensus (S R : Type 0) : Type 0 where
  pub membership : Membership
  pub tracker : ProposalsTracker R
  pub read_tracker : ReadIndexTracker
  pub snapshot_index : ℕ
  pub applied_index : ℕ
  pub store : S

unfoldable pub drop : {A : Type 0} → ℕ → List A → List A
drop n [] = []
drop zero (x ∷ xs) = x ∷ xs
drop (suc n) (x ∷ xs) = drop n xs

-- `entriesToApply`, at uint64.
unfoldable pub entries_to_apply : ℕ → List Entry → Result (List Entry)
unfolding drop
entries_to_apply applied_index [] = ok []
entries_to_apply applied_index (e ∷ entries) =
    if ltb ((applied_index + 1) % 2 ^ 64) e.index
    then err uncoded
    else let skip = (applied_index + 1 + 2 ^ 64 - e.index) % 2 ^ 64 in
      if ltb skip (length (e ∷ entries)) then ok (drop skip (e ∷ entries)) else ok []

-- The index of the last of some entries.
unfoldable pub last_index : Entry → List Entry → ℕ
last_index e [] = e.index
last_index e (f ∷ entries) = last_index f entries

-- The loop over the read states.
unfoldable pub set_indices : ℕ → List ReadState → ReadIndexTracker → ReadIndexTracker
set_indices applied_index [] r = r
set_indices applied_index (rs ∷ read_states) r =
    set_indices applied_index read_states (set_index rs.request_ctx rs.index applied_index r)

-- The membership after a change that was let through.
unfoldable pub changed : ConfChangeSingle → Member → Membership → Membership
changed change mem m = elim change.type [
  | conf_change_add_node ↦ add_node change.node_id mem m
  | conf_change_remove_node ↦ remove_node change.node_id m
  | conf_change_update_node ↦ m
  | conf_change_add_learner_node ↦ m
]

-- Whether a change removes the node itself.
unfoldable pub removes_self : ConfChangeSingle → Membership → Bool
removes_self change m = elim change.type [
  | conf_change_add_node ↦ false
  | conf_change_remove_node ↦ nat_eq change.node_id m.node_id
  | conf_change_update_node ↦ false
  | conf_change_add_learner_node ↦ false
]

-- What the consumer takes from elsewhere: the store behind the channel `commitC`, which answers a
-- proposal and restores a snapshot, etcd's test of URLs, and the storage of the node, which may fail
-- to save an update or to make a snapshot.
pub record Environment (S R : Type 0) : Type 0 where
  pub serve : Proposal → S → ProposalResult R × S
  pub restore_store : String → S → S
  pub valid_url : String → Bool
  pub saves : Update → Bool
  pub makes_snapshot : Consensus S R → Bool

module _ {S R : Type 0} (env : Environment S R) where
  unfoldable pub untrack : String → ProposalResult R → Exec (Consensus S R) (Unit {0})
  untrack id result = modify (λ c. record c { tracker = Proposals.untrack id result c.tracker })

  -- `submitNormalEntryToStorage`, with the answer of the store, for which `publishEntries` waits. A
  -- panic of the store ends the process, so that nobody is answered.
  unfoldable pub submit_normal_entry : Proposal → Exec (Consensus S R) (Unit {0})
  unfolding untrack
  submit_normal_entry p c =
      let (result, s) = env.serve p c.store in
      let served = record c { store = s } in
      if has_panicked result then (err panic, served) else untrack p.id result served

  -- `applyConfigChange`
  unfoldable pub apply_config_change : ConfChange → Exec (Consensus S R) (Unit {0})
  apply_config_change cc = elim cc.change.type [
    | conf_change_add_node ↦ elim cc.member [
      | none ↦ raise uncoded
      | some m ↦ modify (λ c. record c { membership = add_node cc.change.node_id m c.membership })
    ]
    | conf_change_remove_node ↦ pure tt
    | conf_change_update_node ↦ pure tt
    | conf_change_add_learner_node ↦ pure tt
  ]

  -- The change to make, or why it is rejected.
  unfoldable pub checked_change :
      List ConfChangeSingle → String → Membership → Result ConfChangeSingle
  checked_change (change ∷ []) url m =
      bind_result (validate_conf_change env.valid_url change url m) (λ _. ok change)
  checked_change _ url m = err (coded bad_request)

  -- `applyConfigChangeV2`, from its context on.
  unfoldable pub apply_checked :
      ConfChangeContext → Result ConfChangeSingle → Exec (Consensus S R) (Unit {0})
  unfolding untrack changed removes_self
  apply_checked cctx (err e) = untrack cctx.id (err e)
  apply_checked cctx (ok change) = do
    self ← gets (λ c. removes_self change c.membership)
    modify (λ c. record c { membership = changed change cctx.member c.membership })
    untrack cctx.id (ok none)
    raise_if self err_self_removed

  -- `applyConfigChangeV2`
  unfoldable pub apply_config_change_v2 : ConfChangeV2 → Exec (Consensus S R) (Unit {0})
  unfolding checked_change apply_checked
  apply_config_change_v2 cc = do
    cctx ← lift (read_context cc.context)
    change ← gets (λ c. checked_change cc.changes cctx.member.url c.membership)
    apply_checked cctx change

  -- One round of the loop of `publishEntries`.
  unfoldable pub publish_entry : EntryData → Exec (Consensus S R) (Unit {0})
  unfolding submit_normal_entry apply_config_change apply_config_change_v2
  publish_entry empty_entry = pure tt
  publish_entry (normal_entry none) = raise uncoded
  publish_entry (normal_entry (some p)) = submit_normal_entry p
  publish_entry (conf_change_entry none) = raise uncoded
  publish_entry (conf_change_entry (some cc)) = apply_config_change cc
  publish_entry (conf_change_v2_entry none) = raise uncoded
  publish_entry (conf_change_v2_entry (some cc)) = apply_config_change_v2 cc

  unfoldable pub publish_loop : List Entry → Exec (Consensus S R) (Unit {0})
  unfolding publish_entry
  publish_loop [] = pure tt
  publish_loop (e ∷ entries) = do publish_entry e.data_; publish_loop entries

  -- The end of `publishEntries`: a snapshot, where the last one is old enough.
  unfoldable pub maybe_snapshot : ℕ → Exec (Consensus S R) (Unit {0})
  maybe_snapshot interval c =
      if leb interval ((c.applied_index + 2 ^ 64 - c.snapshot_index) % 2 ^ 64)
      then (if env.makes_snapshot c
          then (ok tt, record c { snapshot_index = c.applied_index })
          else (err uncoded, c))
      else (ok tt, c)

  -- `publishEntries`
  unfoldable pub publish_entries : ℕ → List Entry → Exec (Consensus S R) (Unit {0})
  unfolding publish_loop last_index maybe_snapshot
  publish_entries interval [] = pure tt
  publish_entries interval (e ∷ entries) = do
    publish_loop (e ∷ entries)
    modify (λ c. record c { applied_index = last_index e entries })
    maybe_snapshot interval

  -- A received snapshot must be ahead of what has been applied.
  unfoldable pub install_snapshot : Option SnapshotUpdate → Exec (Consensus S R) (Unit {0})
  install_snapshot none c = (ok tt, c)
  install_snapshot (some u) c =
      if leb u.index c.applied_index then (err uncoded, c) else elim u.snapshot [
        | none ↦ (err uncoded, c)
        | some snap ↦ elim (restore snap.members snap.removed_ids c.membership) [
          | err e ↦ (err e, c)
          | ok m ↦ (
            ok tt,
            record c {
              membership = m;
              snapshot_index = u.index;
              applied_index = u.index;
              store = env.restore_store snap.app_data c.store;
            },
          )
        ]
      ]

  unfoldable pub serve_reads : List ReadState → Exec (Consensus S R) (Unit {0})
  unfolding set_indices
  serve_reads read_states = modify (λ c. record c {
    read_tracker =
        release_up_to c.applied_index (set_indices c.applied_index read_states c.read_tracker);
  })

  -- One round of the loop of `startRaftUpdatesConsumer`; after an error it ends.
  unfoldable pub handle_update : ℕ → Update → Exec (Consensus S R) (Unit {0})
  unfolding entries_to_apply publish_entries install_snapshot serve_reads
  handle_update interval u = do
    raise_if (not (env.saves u)) uncoded
    install_snapshot u.snapshot
    applied_index ← gets (λ c. c.applied_index)
    entries ← lift (entries_to_apply applied_index u.committed_entries)
    publish_entries interval entries
    serve_reads u.read_states
