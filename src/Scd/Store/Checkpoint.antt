-- ===== src/Scd/Store/Checkpoint.antt =====
-- store.go's `Checkpoint` and `Restore`, and their use by `processCommits` of pkg/raftstore/store.go.
pub mod Pointers
pub mod Memory
pub mod Isolation
pub mod Laws
use dss.Prelude.{Bool, true, false, ◌||◌, if◌then◌else◌}
use dss.Exec.{Result, ok, err, Exec, is_panic}
use dss.Scd.Store.Records.{State, initial_state}

pub record Repo : Type 0 where
  pub state : State
  pub checkpoint : State

-- `Checkpoint`. The clone of a table reads as the table and shares no record with it, which `Isolation`
-- shows of the table whose records are written in place; so it is the table here.
unfoldable pub checkpoint : Repo → Repo
checkpoint r = record r { checkpoint = r.state }

-- `Restore`, with the clone of the checkpoint.
unfoldable pub restore : Repo → Repo
restore r = record r { state = r.checkpoint }

-- `newRepo`, by `resetState`
unfoldable pub new_repo : Repo
unfolding checkpoint
new_repo = checkpoint (record { state = initial_state; checkpoint = initial_state })

-- A committed proposal in `processCommits`: `apply` is the registered handler at its payload. A panic
-- ends the process, and nothing is restored.
unfoldable pub process_commit : {A : Type 0} → Bool → Exec State A → Repo → Result A × Repo
unfolding checkpoint restore
process_commit read_only apply r =
    let saved = if read_only then r else checkpoint r in
    let (result, s) = apply saved.state in
    let applied = record saved { state = s } in
    elim result [
      | ok a ↦ (ok a, applied)
      | err e ↦ (err e, if read_only || is_panic e then applied else restore applied)
    ]
