-- ===== src/Raft/Consumer/Tests.antt =====
-- A node that takes two entries of the log, and serves a read that waits for the second.
use dss.Prelude.{
  zero, suc, ◌≡◌, refl, String, true, false, none, some, List, [], ◌∷◌, any, if◌then◌else◌,
}
use dss.GoMap
use dss.Exec.{ok}
use dss.Raft.Proposals
use dss.Raft.Proposals.{new_proposals_tracker}
use dss.Raft.Reads
use dss.Raft.Reads.{ReadIndexTracker, PendingRead}
use dss.Raft.NodeMap
use dss.Raft.Membership.{
  conf_change_remove_node, is_id_removed, validate_type, validate_conf_change, remove_node,
}
use dss.Raft.Membership.Laws.{IsKept}
use dss.Raft.Consumer.{
  Proposal, ConfChangeV2, empty_entry, normal_entry, Update, Consensus, Environment, drop,
  entries_to_apply, last_index, set_indices, untrack, submit_normal_entry, apply_config_change_v2,
  checked_change, changed, removes_self, apply_checked, publish_entry, publish_loop, maybe_snapshot,
  publish_entries, install_snapshot, serve_reads, handle_update,
}
use dss.Raft.Consumer.Entries.{Log, stretch}
use dss.Raft.Consumer.Reads.{HasServed}
use dss.Raft.Consumer.Serves.{handle_update-HasServed}
use dss.Raft.Consumer.Changes.{apply_config_change_v2-IsKept}

-- A store that keeps the values that are written, the last first, and answers with the value.
abbrev pub env0 : Environment (List String) String
env0 = record {
  serve = λ p s. (ok (some p.value), if p.read_only then s else p.value ∷ s);
  restore_store = λ data_ s. data_ ∷ [];
  valid_url = λ url. true;
  saves = λ u. true;
  makes_snapshot = λ c. true;
}

abbrev pub proposal : String → Proposal
proposal v = record { id = v; timestamp = 0; request_type = "put"; value = v; read_only = false }

-- Two values, and then nothing.
abbrev pub log0 : Log
log0 zero = empty_entry
log0 (suc zero) = normal_entry (some (proposal "x"))
log0 (suc (suc zero)) = normal_entry (some (proposal "y"))
log0 (suc (suc (suc n))) = empty_entry

abbrev waiting : PendingRead
waiting = record { index = 0; index_known = false; done = 0 }

abbrev pub c0 : Consensus (List String) String
c0 = record {
  membership = record {
    node_id = 1;
    peer_calls = [];
    members = (1, record { url = "a" }) ∷ (2, record { url = "b" }) ∷ [];
    removed_ids = [];
  };
  tracker = new_proposals_tracker;
  read_tracker = record { pending = ("r", waiting) ∷ []; closed = []; made = 1 };
  snapshot_index = 0;
  applied_index = 0;
  store = [];
}

abbrev pub u0 : Update
u0 = record {
  snapshot = none;
  committed_entries = stretch log0 1 2;
  read_states = record { request_ctx = "r"; index = 2 } ∷ [];
}

pub handle_u0 :
    (c : Consensus (List String) String) × (handle_update env0 100 u0 c0 ≡ (ok tt, c))
    × (c.store ≡ "y" ∷ "x" ∷ [])
    × (c.read_tracker.closed ≡ 0 ∷ [])
unfolding GoMap.get GoMap.set GoMap.delete Proposals.untrack Reads.set_index Reads.release_loop
    Reads.release_up_to Reads.is_ready drop entries_to_apply last_index set_indices untrack
    submit_normal_entry publish_entry publish_loop maybe_snapshot publish_entries install_snapshot
    serve_reads handle_update
handle_u0 = (_, refl, refl, refl)

handle_update-HasServed_example :
    HasServed handle_u0.0.applied_index u0.read_states c0.read_tracker handle_u0.0.read_tracker
unfolding GoMap.get
handle_update-HasServed_example =
    handle_update-HasServed env0 100 u0 c0 handle_u0.0 (refl, tt) handle_u0.1

-- Of four members, one has taken the place of node 5, which has been removed.
abbrev c4 : Consensus (List String) String
c4 = record c0 {
  membership = record {
    node_id = 1;
    peer_calls = [];
    members =
        (1, record { url = "a" })
        ∷ (2, record { url = "b" })
        ∷ (3, record { url = "c" })
        ∷ (4, record { url = "d" })
        ∷ [];
    removed_ids = 5 ∷ [];
  };
}

abbrev remove_2 : ConfChangeV2
remove_2 = record {
  changes = record { type = conf_change_remove_node; node_id = 2 } ∷ [];
  context = none;
}

-- The removal is let through.
removed_2 : (apply_config_change_v2 env0 remove_2 c4).1.membership.removed_ids ≡ 5 ∷ 2 ∷ []
unfolding NodeMap.get any is_id_removed validate_type validate_conf_change checked_change
    remove_node changed removes_self Proposals.untrack untrack apply_checked apply_config_change_v2
    GoMap.get
removed_2 = refl

apply_config_change_v2-IsKept_example :
    IsKept c4.membership (apply_config_change_v2 env0 remove_2 c4).1.membership
apply_config_change_v2-IsKept_example = apply_config_change_v2-IsKept env0 remove_2 c4
