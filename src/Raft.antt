-- ===== src/Raft.antt =====
-- pkg/raftstore/consensus: what a node of a Raft group does with what the Raft library hands it.
pub mod NodeMap
pub mod Reads
pub mod Proposals
pub mod Membership
pub mod Consumer
pub mod Run
