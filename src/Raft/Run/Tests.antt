-- ===== src/Raft/Run/Tests.antt =====
-- A run: an update, a client that asks for a read, and the read.
use dss.Prelude.{refl, [], true, arith}
use dss.Raft.Consumer.{Proposal}
use dss.Raft.Consumer.Laws.{IsFromLog, IsReplica, IsAhead}
use dss.Raft.Consumer.Tests.{env0, proposal, log0, c0, u0, handle_u0}
use dss.Raft.Run.{client_call, track_read, commit_read, start, updated, called, read, Run-IsAhead}

u0-IsFromLog : IsFromLog env0 log0 [] u0
u0-IsFromLog = record {
  first = 1;
  count = 2;
  committed = refl;
  small = omega arith;
  faithful = λ up snap e f s. absurd (ground arith);
  snapshot_small = λ up e. absurd (ground arith);
}

c0-IsReplica : IsReplica env0 log0 [] c0
c0-IsReplica = record { store = refl; fits = omega arith }

-- A read, as it is released.
abbrev read_z : Proposal
read_z = record (proposal "z") { read_only = true }

Run-IsAhead_example :
    IsAhead env0 log0 [] c0 (commit_read env0 read_z (client_call (track_read "z") handle_u0.0)).1
unfolding client_call
Run-IsAhead_example =
    Run-IsAhead env0 100 log0 [] c0-IsReplica
      (read (called (updated start u0 u0-IsFromLog handle_u0.1) (track_read "z")) read_z refl refl)
