-- ===== src/Raft/Reads.antt =====
-- pkg/raftstore/consensus/readindex.go: the reads that wait for the applied index to reach the index
-- that the library reports for them.
pub mod Laws
pub mod Wakes
use dss.Prelude.{
  ℕ, ◌+◌, String, Bool, true, false, Option, none, some, List, [], ◌∷◌, ◌&&◌, leb, if◌then◌else◌,
}
use dss.GoMap
use dss.GoMap.{GoMap}
use dss.Raft.Proposals.{Channel}

-- `pendingRead`
pub record PendingRead : Type 0 where
  pub index : ℕ
  pub index_known : Bool
  pub done : Channel

-- `readIndexTracker`, with the channels that were closed, the last first, and the number of channels
-- made.
pub record ReadIndexTracker : Type 0 where
  pub pending : GoMap PendingRead
  pub closed : List Channel
  pub made : ℕ

abbrev pub new_read_index_tracker : ReadIndexTracker
new_read_index_tracker = record { pending = []; closed = []; made = 0 }

-- `track`
unfoldable pub track : String → ReadIndexTracker → Channel × ReadIndexTracker
track id r =
    let p : PendingRead = record { index = 0; index_known = false; done = r.made } in
    (r.made, record r { pending = GoMap.set r.pending id p; made = r.made + 1 })

-- `setIndex`
unfoldable pub set_index : String → ℕ → ℕ → ReadIndexTracker → ReadIndexTracker
set_index id index applied_index r = elim (GoMap.get r.pending id) [
  | none ↦ r
  | some p ↦
      if leb index applied_index
      then record r { pending = GoMap.delete r.pending id; closed = p.done ∷ r.closed }
      else record r {
        pending = GoMap.set r.pending id (record p { index = index; index_known = true });
      }
]

-- `p.indexKnown && p.index <= appliedIndex`
unfoldable pub is_ready : ℕ → PendingRead → Bool
is_ready applied_index p = p.index_known && leb p.index applied_index

-- The loop of `releaseUpTo`: what it leaves in the map, and the channels that are closed by then.
unfoldable pub release_loop :
    ℕ → GoMap PendingRead → List Channel → GoMap PendingRead × List Channel
release_loop applied_index [] closed = ([], closed)
release_loop applied_index ((id, p) ∷ m) closed =
    let release = release_loop applied_index m (p.done ∷ closed) in
    let (rest, after) = release_loop applied_index m closed in
    if is_ready applied_index p then release else ((id, p) ∷ rest, after)

-- `releaseUpTo`
unfoldable pub release_up_to : ℕ → ReadIndexTracker → ReadIndexTracker
unfolding is_ready release_loop
release_up_to applied_index r =
    let (rest, after) = release_loop applied_index r.pending r.closed in
    record r { pending = rest; closed = after }

-- `untrack`
unfoldable pub untrack : String → ReadIndexTracker → ReadIndexTracker
untrack id r = record r { pending = GoMap.delete r.pending id }
