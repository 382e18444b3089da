-- ===== src/Scd/Replica/Tests.antt =====
-- A node that takes the creation of a constraint from the log, and a proposal that cannot be read.
use dss.Prelude.{zero, suc, ◌≡◌, refl, Option, none, some, [], true, false, arith, any}
use dss.GoMap
use dss.Exec.{ok}
use dss.Fixtures.{ext0}
use dss.Models.{validate_cell}
use dss.Scd.Models.{Constraint, new_ovn_from_time, replace_all}
use dss.Scd.Store.Records.{initial_state, require_extent_times}
use dss.Scd.Store.Valid.{IsValid}
use dss.Scd.Store.Fixtures.{volume_a, s0, s0-IsValid}
use dss.Scd.Store.Constraints as StoredConstraints
use dss.Scd.Store.Checkpoint.{Repo, checkpoint, restore, process_commit}
use dss.Raft.Proposals
use dss.Raft.Proposals.{new_proposals_tracker}
use dss.Raft.Reads
use dss.Raft.Reads.{new_read_index_tracker}
use dss.Raft.Consumer.{
  Proposal, empty_entry, normal_entry, Update, Consensus, Environment, drop, entries_to_apply,
  last_index, set_indices, untrack, submit_normal_entry, publish_entry, publish_loop,
  maybe_snapshot, publish_entries, install_snapshot, serve_reads, handle_update,
}
use dss.Raft.Consumer.Entries.{Log, stretch}
use dss.Raft.Consumer.Laws.{IsFromLog}
use dss.Raft.Run.{start, updated}
use dss.Scd.Replica.{Command, upsert_constraint, execute, apply, scd_environment, node-IsValid}

abbrev constraint_k : Constraint
constraint_k = record {
  id = "k";
  manager = "uss3";
  version = 1;
  ovn = "";
  uss_base_url = "https://uss3";
  volume = volume_a;
}

abbrev proposal_k : Proposal
proposal_k = record {
  id = "p";
  timestamp = 6;
  request_type = "upsertConstraint";
  value = "k";
  read_only = false;
}

abbrev decode_k : Proposal → Option Command
decode_k p = some (upsert_constraint constraint_k)

abbrev other : Environment Repo (Unit {0})
other = record {
  serve = λ p r. (ok none, r);
  restore_store = λ data_ r. r;
  valid_url = λ url. true;
  saves = λ u. true;
  makes_snapshot = λ c. true;
}

abbrev log_k : Log
log_k zero = empty_entry
log_k (suc zero) = normal_entry (some proposal_k)
log_k (suc (suc n)) = empty_entry

abbrev r0 : Repo
r0 = record { state = s0; checkpoint = initial_state }

abbrev c0 : Consensus Repo (Unit {0})
c0 = record {
  membership = record { node_id = 1; peer_calls = []; members = []; removed_ids = [] };
  tracker = new_proposals_tracker;
  read_tracker = new_read_index_tracker;
  snapshot_index = 0;
  applied_index = 0;
  store = r0;
}

abbrev u_k : Update
u_k = record { snapshot = none; committed_entries = stretch log_k 1 1; read_states = [] }

handle_k :
    (c : Consensus Repo (Unit {0})) × (handle_update
        (scd_environment ext0 decode_k other)
        100
        u_k
        c0
      ≡ (ok tt, c))
unfolding GoMap.get GoMap.set GoMap.delete any new_ovn_from_time replace_all validate_cell
    require_extent_times StoredConstraints.constraint_to_model StoredConstraints.validate_cells
    StoredConstraints.upsert_constraint checkpoint restore process_commit execute apply
    scd_environment Proposals.untrack Reads.set_index Reads.release_loop Reads.release_up_to
    Reads.is_ready drop entries_to_apply last_index set_indices untrack submit_normal_entry
    publish_entry publish_loop maybe_snapshot publish_entries install_snapshot serve_reads
    handle_update
handle_k = (_, refl)

u_k-IsFromLog : IsFromLog (scd_environment ext0 decode_k other) log_k r0 u_k
u_k-IsFromLog = record {
  first = 1;
  count = 1;
  committed = refl;
  small = omega arith;
  faithful = λ up snap e f s. absurd (ground arith);
  snapshot_small = λ up e. absurd (ground arith);
}

node-IsValid_example : IsValid handle_k.0.store.state
node-IsValid_example =
    node-IsValid ext0 decode_k other 100 log_k r0 s0-IsValid
      (record { store = refl; fits = omega arith }) (updated start u_k u_k-IsFromLog handle_k.1)
