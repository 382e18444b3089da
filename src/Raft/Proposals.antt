-- ===== src/Raft/Proposals.antt =====
-- pkg/raftstore/consensus/proposal.go: the proposals that wait for their result.
use dss.Prelude.{ℕ, ◌+◌, String, Option, none, some, List, [], ◌∷◌}
use dss.GoMap
use dss.GoMap.{GoMap}
use dss.Exec.{Result}

-- The channel that `make` made as the n-th.
abbrev pub Channel : Type 0
Channel = ℕ

-- `ProposalResult`: an error, or a result that may be nil.
abbrev pub ProposalResult : Type 0 → Type 0
ProposalResult R = Result (Option R)

-- `proposalsTracker`, with what was sent on the channels, the last first, and the number of channels
-- made.
pub record ProposalsTracker (R : Type 0) : Type 0 where
  pub pending : GoMap Channel
  pub sent : List (Channel × ProposalResult R)
  pub made : ℕ

module _ {R : Type 0} where
  abbrev pub new_proposals_tracker : ProposalsTracker R
  new_proposals_tracker = record { pending = []; sent = []; made = 0 }

  -- `track`
  unfoldable pub track : String → ProposalsTracker R → Channel × ProposalsTracker R
  track id p = (p.made, record p { pending = GoMap.set p.pending id p.made; made = p.made + 1 })

  -- `untrack`
  unfoldable pub untrack : String → ProposalResult R → ProposalsTracker R → ProposalsTracker R
  untrack id result p = elim (GoMap.get p.pending id) [
    | none ↦ p
    | some applied ↦ record p {
      pending = GoMap.delete p.pending id;
      sent = (applied, result) ∷ p.sent;
    }
  ]
