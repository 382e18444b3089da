-- ===== src/Raft/Run.antt =====
-- The runs of a node: updates of the Raft library, and between them the requests of clients, which
-- register and drop what they wait for (`HandleReadRequest`, `HandleWriteRequest` and
-- `proposeConfChange` of pkg/raftstore/consensus/consensus.go).
mod Tests
use dss.Prelude.{ℕ, ◌≤◌, ◌≡◌, ◌∙◌, String, true, arith}
use dss.Exec.{ok}
use dss.Raft.Proposals.{ProposalResult}
use dss.Raft.Proposals
use dss.Raft.Reads
use dss.Raft.Consumer.{Proposal, Update, Consensus, Environment, handle_update}
use dss.Raft.Consumer.Entries.{Log}
use dss.Raft.Consumer.Laws.{IsFromLog, IsReplica, IsAhead, handle_update-IsAhead}

-- What the request of a client does to the trackers.
pub data ClientCall (R : Type 0) : Type 0 where
  track_read untrack_read track_proposal : String → ClientCall R
  untrack_proposal : String → ProposalResult R → ClientCall R

module _ {S R : Type 0} where
  unfoldable pub client_call : ClientCall R → Consensus S R → Consensus S R
  client_call (track_read id) c = record c { read_tracker = (Reads.track id c.read_tracker).1 }
  client_call (untrack_read id) c = record c { read_tracker = Reads.untrack id c.read_tracker }
  client_call (track_proposal id) c = record c { tracker = (Proposals.track id c.tracker).1 }
  client_call (untrack_proposal id result) c = record c {
    tracker = Proposals.untrack id result c.tracker;
  }

  -- The end of `HandleReadRequest`: a read that has been released is committed to the store.
  unfoldable pub commit_read :
      Environment S R → Proposal → Consensus S R → ProposalResult R × Consensus S R
  commit_read env p c = let (result, s) = env.serve p c.store in (result, record c { store = s })

  module _ (env : Environment S R) (interval : ℕ) (log : Log) (s0 : S) where
    -- The states that a node goes through from a first one on.
    pub data Run (c : Consensus S R) : Consensus S R → Type 0 where
      start : Run c c
      updated :
          {d d' : Consensus S R}
          → Run c d
          → (u : Update) → IsFromLog env log s0 u
          → handle_update env interval u d ≡ (ok tt, d')
          → Run c d'
      called : {d : Consensus S R} → Run c d → (call : ClientCall R) → Run c (client_call call d)
      -- A proposal is only sent as one that reads, if its handler does not change the store.
      read :
          {d : Consensus S R}
          → Run c d
          → (p : Proposal) → p.read_only ≡ true
          → (env.serve p d.store).1 ≡ d.store
          → Run c (commit_read env p d).1

    call_lem :
        (call : ClientCall R) (c d : Consensus S R)
        → IsAhead env log s0 c d
        → IsAhead env log s0 c (client_call call d)
    unfolding client_call
    call_lem (track_read id) c d (r, le) = (record { store = r.store; fits = r.fits }, le)
    call_lem (untrack_read id) c d (r, le) = (record { store = r.store; fits = r.fits }, le)
    call_lem (track_proposal id) c d (r, le) = (record { store = r.store; fits = r.fits }, le)
    call_lem (untrack_proposal id x) c d (r, le) = (record { store = r.store; fits = r.fits }, le)

    read_lem :
        (p : Proposal) (c d : Consensus S R)
        → (env.serve p d.store).1 ≡ d.store
        → IsAhead env log s0 c d
        → IsAhead env log s0 c (commit_read env p d).1
    unfolding commit_read
    read_lem p c d same (r, le) = (record { store = same ∙ r.store; fits = r.fits }, le)

    -- A node refines the log: in every state of a run from a replica, whatever the batches in which
    -- the library hands over the log, and whatever the clients ask for in between, the store is what
    -- the entries of the log up to the applied index make of the first store, each taken once and in
    -- order, and the applied index never goes back.
    pub Run-IsAhead :
        {c d : Consensus S R} → IsReplica env log s0 c → Run c d → IsAhead env log s0 c d
    Run-IsAhead r start = (r, omega arith)
    Run-IsAhead {c} r (updated {d} {d'} run u from h) =
        let (r', le) = Run-IsAhead r run in
        let (r'', le') = handle_update-IsAhead env log s0 interval u d d' from r' h in
        (r'', omega (arith, le, le'))
    Run-IsAhead {c} r (called {d} run call) = call_lem call c d (Run-IsAhead r run)
    Run-IsAhead {c} r (read {d} run p reads same) = read_lem p c d same (Run-IsAhead r run)
